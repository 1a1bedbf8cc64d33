-- ===== src/Base/Outcome.antt =====
-- error.rs: the program's error type, and `Result`.
use Prim.Native.String.{◌++◌ as append}
use polymarket_watch_rust.Base.Tests.{
  Bool, Option, String, false, inl, inr, none, refl, some, true, ⊤, ◌≡◌, ◌⊎◌,
}

pub data BotError : Type 0 where
  config compliance readiness risk journal execution protocol parse io : String → BotError

pub data Result {ℓ} (A : Type ℓ) : Type ℓ where
  err : BotError → Result A
  ok : A → Result A

-- `?`
infixl 5 ◌>>=◌ ◌>>◌
abbrev pub ◌>>=◌ {ℓ κ} : {T : Type ℓ} {U : Type κ} → Result T → (T → Result U) → Result U
err problem >>= next = err problem
ok value >>= next = next value

abbrev pub ◌>>◌ {ℓ} : {U : Type ℓ} → Result ⊤ → Result U → Result U
check >> after = check >>= λ _. after

-- `if c { return Err(e) }`
abbrev pub fail_if : Bool → BotError → Result ⊤
fail_if true e = err e
fail_if false e = ok tt

abbrev pub ok_or {ℓ} : {A : Type ℓ} → Option A → BotError → Result A
ok_or none e = err e
ok_or (some a) e = ok a

-- `.ok()`
abbrev pub to_option {ℓ} : {A : Type ℓ} → Result A → Option A
to_option (ok a) = some a
to_option (err _) = none

-- `Display for BotError`
abbrev pub to_string : BotError → String
to_string (config v) = append "config error: " v
to_string (compliance v) = append "compliance error: " v
to_string (readiness v) = append "readiness error: " v
to_string (risk v) = append "risk error: " v
to_string (journal v) = append "journal error: " v
to_string (execution v) = append "execution error: " v
to_string (protocol v) = append "protocol error: " v
to_string (parse v) = append "parse error: " v
to_string (io v) = append "io error: " v

pub >>=-eq-ok {ℓ κ} :
    {T : Type ℓ} {U : Type κ} (r : Result T) (next : T → Result U) {u : U}
    → (r >>= next) ≡ ok u
    → (t : T) × (r ≡ ok t) × (next t ≡ ok u)
>>=-eq-ok (err problem) next h = cc
>>=-eq-ok (ok value) next h = (value, refl, h)

pub Result-cases {ℓ} :
    {A : Type ℓ} (r : Result A) → ((a : A) × (r ≡ ok a)) ⊎ ((e : BotError) × (r ≡ err e))
Result-cases (ok a) = inl (a, refl)
Result-cases (err e) = inr (e, refl)

pub ok_or-eq-ok {ℓ} :
    {A : Type ℓ} (o : Option A) (e : BotError) (a : A) → ok_or o e ≡ ok a → o ≡ some a
ok_or-eq-ok none e a h = cc
ok_or-eq-ok (some b) e a h = cc
