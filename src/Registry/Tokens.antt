-- ===== src/Registry/Tokens.antt =====
-- One-time enrollment tokens: what consuming one takes out of the registry.
use dev_gate_agentic_framewo.Common.{
  ℕ, suc, ◌+◌, ◌≡◌, ◌≢◌, refl, Bool, true, false, Option, none, some, List, [], ◌∷◌, length, count,
  String, ◌==◌, string_eq, arith, if◌then◌else◌, contains, Bool-cases, inl, inr,
}
use dev_gate_agentic_framewo.Common.Json.{Json, null, bool, int, real, arr, obj, str}
use dev_gate_agentic_framewo.Common.Result.{Result, ok, err}
use dev_gate_agentic_framewo.Registry.{
  Crash, Registry, verify, take_token, consume_enrollment_token,
}

-- How often a text stands in a list.
abbrev pub copies : String → List String → ℕ
copies t ts = count (λ u. t == u) ts

-- One copy of the token that was presented is gone, and nothing else has changed.
abbrev pub OneLess : String → String → List String → Option (List String) → Type 0
OneLess t s ts none = copies s ts ≡ 0
OneLess t s ts (some left) =
    (length ts ≡ suc (length left)) × (copies t ts ≡ (if t == s then 1 else 0) + copies t left)

abbrev pub Taken : String → String → List String → Result Crash (Option (List String)) → Type 0
Taken t s ts (err crash) = ⊥
Taken t s ts (ok found) = OneLess t s ts found

take_token-Taken : (t s : String) (ts : List String) → s ≢ "" → Taken t s ts (take_token (str s) ts)
unfolding take_token verify
take_token-Taken t s [] h = refl
take_token-Taken t s (c ∷ ts) h = ground (arith, take_token-Taken t s ts h)

-- Anything but a text that is not empty takes no token.
abbrev NotTaken : Result Crash (Option (List String)) → Type 0
NotTaken (ok (some left)) = ⊥
NotTaken _ = Unit

take_token-empty : (ts : List String) → NotTaken (take_token (str "") ts)
unfolding take_token verify
take_token-empty [] = tt
take_token-empty (c ∷ ts) = ground (arith, take_token-empty ts)

abbrev is_text : Json → Bool
is_text (str s) = true
is_text _ = false

take_token-no_text : (p : Json) (ts : List String) → is_text p ≡ false → NotTaken (take_token p ts)
unfolding take_token verify
take_token-no_text (str s) ts h = cc
take_token-no_text p [] h = tt
take_token-no_text null (c ∷ ts) h = ground (arith, take_token-no_text null ts h)
take_token-no_text (bool b) (c ∷ ts) h = ground (arith, take_token-no_text (bool b) ts h)
take_token-no_text (int n) (c ∷ ts) h = ground (arith, take_token-no_text (int n) ts h)
take_token-no_text (real b s) (c ∷ ts) h = ground (arith, take_token-no_text (real b s) ts h)
take_token-no_text (arr xs) (c ∷ ts) h = ground (arith, take_token-no_text (arr xs) ts h)
take_token-no_text (obj fs) (c ∷ ts) h = ground (arith, take_token-no_text (obj fs) ts h)

abbrev pub is_text_of : String → Json → Bool
is_text_of t (str s) = t == s
is_text_of t _ = false

-- What a call of consume_enrollment_token leaves: on success the rows are as they were and the
-- presented token has one copy less; otherwise the registry is as it was.
abbrev pub Consumed : String → Json → Registry → Result Crash (Registry × Bool) → Type 0
Consumed t p reg (err crash) = Unit
Consumed t p reg (ok (r, false)) = r ≡ reg
Consumed t p reg (ok (r, true)) =
    (r.runners ≡ reg.runners)
    × (length reg.enrollment_tokens ≡ suc (length r.enrollment_tokens))
    × (copies t reg.enrollment_tokens
        ≡ (if is_text_of t p then 1 else 0) + copies t r.enrollment_tokens)

pub consume_enrollment_token-Consumed :
    (t : String) (p : Json) (reg : Registry) → Consumed t p reg (consume_enrollment_token p reg)
unfolding consume_enrollment_token
consume_enrollment_token-Consumed t (str s) reg = elim (Bool-cases (s == "")) [
  | inl e ↦ ground (arith, take_token-empty reg.enrollment_tokens)
  | inr e ↦ ground (arith, take_token-Taken t s reg.enrollment_tokens)
]
consume_enrollment_token-Consumed t p reg =
    ground (arith, take_token-no_text p reg.enrollment_tokens)

-- `texts.remove(s)`: the first copy goes.
abbrev pub remove : String → List String → List String
remove s [] = []
remove s (t ∷ ts) = if s == t then ts else t ∷ remove s ts

pub take_token-remove :
    (s : String) (ts : List String)
    → s ≢ ""
    → contains ts s ≡ true
    → take_token (str s) ts ≡ ok (some (remove s ts))
unfolding take_token verify
take_token-remove s [] h k = cc
take_token-remove s (t ∷ ts) h k = ground (arith, take_token-remove s ts h)

pub contains-remove :
    (s t : String) (ts : List String) → s ≢ t → contains (remove s ts) t ≡ contains ts t
contains-remove s t [] h = refl
contains-remove s t (u ∷ ts) h = ground (arith, contains-remove s t ts h)
