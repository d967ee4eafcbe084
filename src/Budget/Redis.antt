-- ===== src/Budget/Redis.antt =====
-- The Redis server, which the program calls and does not implement: the commands that its scripts
-- use, with the documented effect of each on what `GET` answers. Scripts run one at a time.
use eiraos_chat_backend.Prelude.{
  ◌≡◌, String, Option, none, some, Bool, false, str_eq, if◌then◌else◌,
}
use eiraos_chat_backend.Prelude.Int.{ℤ, pos, ◌+ℤ◌, ◌≤ℤ◌, eq_ℤ}

-- What a key holds: a number in decimal, or another text.
pub data Value : Type 0 where
  number : ℤ → Value
  text : String → Value

abbrev pub value_eq : Value → Value → Bool
value_eq (number a) (number b) = eq_ℤ a b
value_eq (number a) (text t) = false
value_eq (text s) (number b) = false
value_eq (text s) (text t) = str_eq s t

-- `tonumber(redis.call('GET', k)) or 0`
abbrev pub to_number : Option Value → ℤ
to_number none = pos 0
to_number (some (number n)) = n
to_number (some (text t)) = pos 0

-- the key is missing or holds a number
abbrev pub IsCounter : Option Value → Type 0
IsCounter none = Unit
IsCounter (some (number n)) = Unit
IsCounter (some (text t)) = ⊥

pub record RedisServer : Type 1 where
  pub State : Type 0
  pub get : State → String → Option Value
  pub incr_by : String → ℤ → State → State
  -- `SET k v EX seconds`, `SET k v PX ms`: one command for a positive time to live
  pub set_expiring : String → Value → ℤ → State → State
  -- `SET k v KEEPTTL`
  pub set_keep : String → Value → State → State
  pub expire : String → ℤ → State → State
  pub del : String → State → State
  -- `PTTL`: not positive where the key is missing or has no time to live
  pub pttl : String → State → ℤ
  -- `INCRBY` and the times to live, on keys that hold a counter and with a positive time
  pub get-incr_by :
      (k j : String) (n : ℤ) (s : State)
      → IsCounter (get s k)
      → get (incr_by k n s) j
        ≡ (if str_eq k j then some (number (to_number (get s k) +ℤ n)) else get s j)
  pub get-set_expiring :
      (k j : String) (v : Value) (ttl : ℤ) (s : State)
      → pos 1 ≤ℤ ttl
      → get (set_expiring k v ttl s) j ≡ (if str_eq k j then some v else get s j)
  pub get-set_keep :
      (k j : String) (v : Value) (s : State)
      → get (set_keep k v s) j ≡ (if str_eq k j then some v else get s j)
  pub get-expire :
      (k j : String) (ttl : ℤ) (s : State) → pos 1 ≤ℤ ttl → get (expire k ttl s) j ≡ get s j
  pub get-del :
      (k j : String) (s : State) → get (del k s) j ≡ (if str_eq k j then none else get s j)

-- The outcome of one call of the client: no client, a call that raised before the script ran, a
-- script that ran and whose reply was lost, and a reply.
pub data Connection : Type 0 where
  missing refused lost up : Connection
