-- ===== src/Redis/Server.antt =====
-- The redis server as the redis++ client shows it to src/Redis.cpp: a parameter. A command is run on
-- the server's state, and its result is none where the client throws.
use eventhub.Prelude.{ℕ, Bool, Option, none, some, List, Bytes}

abbrev pub Run : Type 0 → Type 0 → Type 0
Run S A = S → Option A × S

abbrev pub pure : {S A : Type 0} → A → Run S A
pure a s = (some a, s)

abbrev pub throw : {S A : Type 0} → Run S A
throw s = (none, s)

abbrev continue_with : {S A B : Type 0} → (A → Run S B) → Option A × S → Option B × S
continue_with f (none, s) = (none, s)
continue_with f (some a, s) = f a s

infixl 5 ◌>>=◌ ◌>>◌
abbrev pub ◌>>=◌ : {S A B : Type 0} → Run S A → (A → Run S B) → Run S B
(m >>= f) s = continue_with f (m s)

abbrev pub ◌>>◌ : {S A B : Type 0} → Run S A → Run S B → Run S B
m >> k = m >>= λ _. k

-- A value read from a text, or the exception of the reading.
abbrev pub or_throw : {S A : Type 0} → Option A → Run S A
or_throw none = throw
or_throw (some a) = pure a

-- The commands that the program sends. A score is the number it was made from.
pub record RedisServer (S : Type 0) : Type 0 where
  pub get : Bytes → Run S (Option Bytes)
  pub set : Bytes → Bytes → Option ℕ → Run S Bool
  pub del : List Bytes → Run S ℕ
  pub incr : Bytes → Run S ℕ
  pub expire : Bytes → ℕ → Run S (Unit {0})
  pub setex : Bytes → ℕ → Bytes → Run S (Unit {0})
  pub hset : Bytes → Bytes → Bytes → Run S (Unit {0})
  pub hdel : Bytes → Bytes → Run S (Unit {0})
  pub hkeys : Bytes → Run S (List Bytes)
  pub hmget : Bytes → List Bytes → Run S (List (Option Bytes))
  pub hincrby : Bytes → Bytes → ℕ → Run S (Unit {0})
  pub zadd : Bytes → Bytes → ℕ → Run S (Unit {0})
  pub zrem : Bytes → Bytes → Run S (Unit {0})
  pub zrange : Bytes → Run S (List Bytes)
  pub zrevrangebyscore : Bytes → ℕ → ℕ → Run S (List Bytes)
  pub publish : Bytes → Bytes → Run S (Unit {0})

abbrev pub rescue : {S A : Type 0} → Run S A → Option A × S → Option A × S
rescue h (none, s) = h s
rescue h (some a, s) = (some a, s)

-- `try m catch (...) { h }`: what m has done before it throws stays done.
abbrev pub try_catch : {S A : Type 0} → Run S A → Run S A → Run S A
try_catch m h s = rescue h (m s)
