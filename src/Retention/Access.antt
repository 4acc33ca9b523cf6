-- ===== src/Retention/Access.antt =====
-- hub/coherence/retention.py: which reads succeed.
use dev_gate_agentic_framewo.Common.{
  ℕ, ◌+◌, ◌*◌, ◌≤◌, ◌≡◌, ◌↔◌, ◌∙◌, refl, sym, ap, String, Bool, true, false, ◌&&◌, Option, none,
  some, ◌==◌, string_eq, if◌then◌else◌, arith, Bool-cases, inl, inr,
}
use mathlib.Core.Path.{subst}
use dev_gate_agentic_framewo.Common.Dict.{lookup}
use dev_gate_agentic_framewo.Common.Result.{Result, ok, err, ok_injective, >>=-ok, ok->>=}
use dev_gate_agentic_framewo.Retention.{
  Host, Store, Meta, Moment, RetentionError, expired, unauthorized, is_ref, content_ref, issue,
  wrap, is_ascii, check_token, day, max_days, last_moment, add_days, is_later, check_window,
  check_record, open_bundle, open_path, read,
}

-- The caller presents the token that is issued for the ref, which is of ASCII characters.
abbrev pub Unlocks : Host → String → Option String → Type 0
Unlocks h ref authorization =
    (token : String) × (issue h ref ≡ ok token)
    × (authorization ≡ some token)
    × (is_ascii token ≡ true)

-- The one time is no later than the other: both have a zone, and UTC decides, or neither has one.
abbrev pub NoLater : Option ℕ → Option ℕ → ℕ → ℕ → Type 0
NoLater none none now expiry = now ≤ expiry
NoLater (some b) (some a) now expiry = now + a ≤ expiry + b
NoLater _ _ now expiry = ⊥

-- The time is no later than so many days after the other, where a `timedelta` holds the days and a
-- `datetime` the end.
abbrev pub Within : Moment → Moment → ℕ → Type 0
Within since now days =
    (days ≤ max_days)
    × (since.wall + days * day ≤ last_moment)
    × NoLater now.ahead since.ahead now.wall (since.wall + days * day)

abbrev pub Lasts : Host → String → ℕ → String → Type 0
Lasts h retained_at days as_of =
    (since : Moment) × (now : Moment) × (h.parse retained_at ≡ some since)
    × (h.parse as_of ≡ some now)
    × Within since now days

abbrev pub IsKept : Host → Store → String → String → Type 0
IsKept h s ref as_of =
    (m : Meta) × (lookup ref s.records ≡ some m) × Lasts h m.retained_at m.retention_days as_of

check_token_ok :
    (e : String) (a : Option String) → check_token e a ≡ ok tt → (a ≡ some e) × (is_ascii e ≡ true)
check_token_ok e none h = absurd (ground arith)
check_token_ok e (some t) h = elim (Bool-cases (is_ascii e && is_ascii t)) [
  | inr n ↦ absurd (not_ok (rw n at h))
  | inl y ↦ (same (rw y at h), left (is_ascii e) (is_ascii t) y)
]
  where
    not_ok : {w : RetentionError} → ◌≡◌ {A = Result RetentionError (Unit {0})} (err w) (ok tt) → ⊥
    not_ok e = cc

    left : (a b : Bool) → (a && b) ≡ true → a ≡ true
    left a b k = ground arith

    same :
        ◌≡◌ {A = Result RetentionError (Unit {0})}
          (if e == t then ok tt else err unauthorized)
          (ok tt)
        → ◌≡◌ {A = Option String} (some t) (some e)
    same q = ground arith

check_token-same : (e : String) → is_ascii e ≡ true → check_token e (some e) ≡ ok tt
check_token-same e h = rw h (ground arith)

is_later-NoLater :
    (b a : Option ℕ) (now expiry : ℕ) → is_later b a now expiry ≡ ok false → NoLater b a now expiry
unfolding is_later
is_later-NoLater none none now expiry h = ground arith
is_later-NoLater (some b) (some a) now expiry h = ground arith
is_later-NoLater none (some a) now expiry h = absurd (ground arith)
is_later-NoLater (some b) none now expiry h = absurd (ground arith)

NoLater-is_later :
    (b a : Option ℕ) (now expiry : ℕ) → NoLater b a now expiry → is_later b a now expiry ≡ ok false
unfolding is_later
NoLater-is_later none none now expiry h = ground arith
NoLater-is_later (some b) (some a) now expiry h = ground arith
NoLater-is_later none (some a) now expiry h = absurd h
NoLater-is_later (some b) none now expiry h = absurd h

-- The end of the window, where there is one.
add_days_ok :
    (since : Moment) (days expiry : ℕ)
    → add_days since days ≡ ok expiry
    → (days ≤ max_days)
      × (since.wall + days * day ≤ last_moment)
      × (expiry ≡ since.wall + days * day)
unfolding add_days
add_days_ok since days expiry h = ground arith

add_days-within :
    (since : Moment) (days : ℕ)
    → days ≤ max_days
    → since.wall + days * day ≤ last_moment
    → add_days since days ≡ ok (since.wall + days * day)
unfolding add_days
add_days-within since days h k = ground arith

not_late :
    (late : Bool)
    → ◌≡◌ {A = Result RetentionError (Unit {0})} (if late then err expired else ok tt) (ok tt)
    → late ≡ false
not_late late h = ground arith

check_window_ok :
    (o p : Option Moment) (days : ℕ)
    → check_window o p days ≡ ok tt
    → (since : Moment) × (now : Moment) × (o ≡ some since) × (p ≡ some now) × Within since now days
unfolding check_window
check_window_ok none p days h = absurd (ground arith)
check_window_ok (some since) none days h = absurd (ground arith)
check_window_ok (some since) (some now) days h =
    let (expiry, h1, ends) = >>=-ok (add_days since days) h in
    let (late, h2, compared) = >>=-ok (is_later now.ahead since.ahead now.wall expiry) h1 in
    let (few, before, same) = add_days_ok since days expiry ends in
    (
      since,
      now,
      refl,
      refl,
      (
        few,
        before,
        subst (NoLater now.ahead since.ahead now.wall) same (
            is_later-NoLater now.ahead since.ahead now.wall expiry
              (compared ∙ ap (λ b. ok b) (not_late late h2))),
      ),
    )

check_window-Within :
    (since now : Moment) (days : ℕ)
    → Within since now days
    → check_window (some since) (some now) days ≡ ok tt
unfolding check_window
check_window-Within since now days (few, before, early) =
    ok->>= (add_days since days) _ (add_days-within since days few before) (
      ok->>= (is_later now.ahead since.ahead now.wall (since.wall + days * day)) _
        (NoLater-is_later now.ahead since.ahead now.wall (since.wall + days * day) early) refl)

check_record_ok :
    (h : Host) (as_of : String) (o : Option Meta)
    → check_record h as_of o ≡ ok tt
    → (m : Meta) × (o ≡ some m) × Lasts h m.retained_at m.retention_days as_of
unfolding check_record
check_record_ok h as_of none k = absurd (ground arith)
check_record_ok h as_of (some m) k =
    (m, refl, check_window_ok (h.parse m.retained_at) (h.parse as_of) m.retention_days k)

check_record-within :
    (h : Host) (as_of : String) (m : Meta)
    → Lasts h m.retained_at m.retention_days as_of
    → check_record h as_of (some m) ≡ ok tt
unfolding check_record
check_record-within h as_of m (since, now, p, q, k) =
    rw (p, q) (check_window-Within since now m.retention_days k)

wrap_ok : (r : Result RetentionError String) (t : String) → wrap r ≡ ok t → r ≡ ok t
wrap_ok (ok u) t h = h
wrap_ok (err e) t h = absurd (ground arith)

open_bundle_ok :
    (h : Host) (s : Store) (ref as_of : String) (a : Option String) (payload found : String)
    → open_bundle h s ref as_of a payload ≡ ok found
    → (found ≡ payload) × (content_ref h payload ≡ ref) × Unlocks h ref a × IsKept h s ref as_of
unfolding open_bundle
open_bundle_ok h s ref as_of a payload found k =
    let (token, k1, issued) = >>=-ok (wrap (issue h ref)) k in
    let (_, k2, shown) = >>=-ok (check_token token a) k1 in
    let (_, k3, kept) = >>=-ok (check_record h as_of (lookup ref s.records)) k2 in
    elim (Bool-cases (content_ref h payload == ref)) [
      | inl same ↦ (
        sym (ok_injective (rw same at k3)),
        same_text (content_ref h payload) ref same,
        unlocks token (wrap_ok (issue h ref) token issued) (check_token_ok token a shown),
        check_record_ok h as_of (lookup ref s.records) kept,
      )
      | inr other ↦ absurd (not_ok (rw other at k3))
    ]
  where
    unlocks :
        (token : String)
        → issue h ref ≡ ok token
        → (a ≡ some token) × (is_ascii token ≡ true)
        → Unlocks h ref a
    unlocks token issued (shown, ascii) = (token, issued, shown, ascii)

    same_text : (x y : String) → (x == y) ≡ true → x ≡ y
    same_text x y e = ground arith

    not_ok : {e : RetentionError} → ◌≡◌ {A = Result RetentionError String} (err e) (ok found) → ⊥
    not_ok e = cc

open_bundle-Unlocks :
    (h : Host) (s : Store) (ref as_of : String) (a : Option String) (payload : String)
    → content_ref h payload ≡ ref
    → Unlocks h ref a
    → IsKept h s ref as_of
    → open_bundle h s ref as_of a payload ≡ ok payload
unfolding open_bundle
open_bundle-Unlocks h s ref as_of a payload same (token, issued, shown, ascii) (m, there, lasts) =
    ok->>= (wrap (issue h ref)) _ (ap wrap issued) (
      ok->>= (check_token token a) _ (ap (check_token token) shown ∙ check_token-same token ascii) (
        ok->>= (check_record h as_of (lookup ref s.records)) _
          (ap (check_record h as_of) there ∙ check_record-within h as_of m lasts)
          (if_same (content_ref h payload) ref same)))
  where
    if_same :
        (x y : String)
        → x ≡ y
        → (if x == y then ok payload else err RetentionError.tampered) ≡ ok payload
    if_same x y e = ground (arith, e)

-- A read returns bytes exactly when the ref has the form of a digest, the bundle is there and holds
-- those bytes, they hash to the ref, the caller presents the token issued for this ref, of ASCII
-- characters, and the record is there, with a lifetime that a date can hold and that is not over, the
-- two times being compared on UTC where both have a zone and as they stand where neither has one. In
-- every other case it raises.
pub read_iff :
    (h : Host) (s : Store) (ref as_of : String) (authorization : Option String) (found : String)
    → (read h s ref as_of authorization ≡ ok found) ↔ (
        (is_ref ref ≡ true)
        × (lookup ref s.bundles ≡ some found)
        × (content_ref h found ≡ ref)
        × Unlocks h ref authorization
        × IsKept h s ref as_of)
unfolding read
read_iff h s ref as_of a found = (onward (lookup ref s.bundles) refl, backward)
  where
    onward :
        (o : Option String)
        → lookup ref s.bundles ≡ o
        → (if is_ref ref then open_path h s ref as_of a o else err RetentionError.bad_ref)
          ≡ ok found
        → (is_ref ref ≡ true)
          × (lookup ref s.bundles ≡ some found)
          × (content_ref h found ≡ ref)
          × Unlocks h ref a
          × IsKept h s ref as_of
    onward o there k = elim (Bool-cases (is_ref ref)) [
      | inr no' ↦ absurd (not_ok (rw no' at k))
      | inl yes' ↦ opened o there yes' (rw yes' at k)
    ]
      where
        not_ok :
            {e : RetentionError} → ◌≡◌ {A = Result RetentionError String} (err e) (ok found) → ⊥
        not_ok e = cc

        opened :
            (o : Option String)
            → lookup ref s.bundles ≡ o
            → is_ref ref ≡ true
            → open_path h s ref as_of a o ≡ ok found
            → (is_ref ref ≡ true)
              × (lookup ref s.bundles ≡ some found)
              × (content_ref h found ≡ ref)
              × Unlocks h ref a
              × IsKept h s ref as_of
        opened none there formed k = absurd (not_ok k)
        opened (some payload) there formed k =
            let (same, hashed, unlocks, kept) = open_bundle_ok h s ref as_of a payload found k in
            (formed, there ∙ ap some (sym same), ap (content_ref h) same ∙ hashed, unlocks, kept)

    backward :
        (is_ref ref ≡ true)
          × (lookup ref s.bundles ≡ some found)
          × (content_ref h found ≡ ref)
          × Unlocks h ref a
          × IsKept h s ref as_of
        → (if is_ref ref
            then open_path h s ref as_of a (lookup ref s.bundles)
            else err RetentionError.bad_ref)
          ≡ ok found
    backward (formed, there, hashed, unlocks, kept) =
        rw (formed, there) (open_bundle-Unlocks h s ref as_of a found hashed unlocks kept)
