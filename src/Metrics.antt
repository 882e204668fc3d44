-- ===== src/Metrics.antt =====
-- internal/metrics/publish.go: `ReplaceAndReload`, a file that is written and taken back if mosproxy does not load it. What
-- the system answers is an argument, the messages are left out.
use dns_stack.Prelude.{
  ℕ, ◌≡◌, ◌≢◌, ◌⊎◌, inl, inr, refl, Bool, true, false, Option, none, some, not, ◌==◌, if◌then◌else◌,
  ◌||◌, arith, Bool-cases,
}
use dns_stack.Text.{Bytes}

-- The two writes, the removal, and what the two reloads return.
pub record ReloadAnswers : Type 0 where
  pub writes : Bool
  pub code : ℕ
  pub removes : Bool
  pub writes_back : Bool
  pub recheck : ℕ

pub data ReloadError : Type 0 where
  not_written first_rejected not_rolled_back still_broken rolled_back : ReloadError

-- The file at the end, and the error.
pub record Replaced : Type 0 where
  pub file : Option Bytes
  pub failure : Option ReloadError

-- What follows a reload that mosproxy has rejected.
unfoldable pub take_back : Option Bytes → Bytes → ReloadAnswers → Replaced
take_back none content a = record {
  file = if a.removes then none else some content;
  failure = some first_rejected;
}
take_back (some previous) content a =
    if not a.writes_back
    then record { file = some content; failure = some not_rolled_back }
    else record {
      file = some previous;
      failure = some (if not (a.recheck == 200) then still_broken else rolled_back);
    }

-- `ReplaceAndReload` on the file with what it holds.
unfoldable pub replace_and_reload : Option Bytes → Bytes → ReloadAnswers → Replaced
replace_and_reload previous content a =
    if not a.writes
    then record { file = previous; failure = some not_written }
    else if a.code == 0 || a.code == 200
    then record { file = some content; failure = none }
    else take_back previous content a

-- Either the new text is there and mosproxy has loaded it or cannot be reached; or it was not written or mosproxy has
-- rejected it, there is an error, and the file is as before unless the new text could not be taken back.
abbrev pub IsReplaced : Option Bytes → Bytes → ReloadAnswers → Replaced → Type 0
IsReplaced previous content a r =
    ((r.failure ≡ none)
      × (r.file ≡ some content)
      × (a.writes ≡ true)
      × ((a.code ≡ 0) ⊎ (a.code ≡ 200)))
    ⊎ ((r.failure ≢ none)
        × ((a.writes ≡ false) ⊎ ((a.code ≢ 0) × (a.code ≢ 200)))
        × ((r.file ≡ previous)
            ⊎ ((r.file ≡ some content) × ((a.removes ≡ false) ⊎ (a.writes_back ≡ false)))))

take_back-file :
    (previous : Option Bytes) (content : Bytes) (a : ReloadAnswers)
    → ((take_back previous content a).failure ≢ none)
      × (((take_back previous content a).file ≡ previous)
          ⊎ (((take_back previous content a).file ≡ some content)
              × ((a.removes ≡ false) ⊎ (a.writes_back ≡ false))))
unfolding take_back
take_back-file none content a = elim (Bool-cases a.removes) [
  | inl e ↦ (λ h. cc, inl (rw e refl))
  | inr e ↦ (λ h. cc, inr (rw e refl, inl e))
]
take_back-file (some previous) content a = elim (Bool-cases a.writes_back) [
  | inl e ↦ simp e (λ h. cc, inl refl)
  | inr e ↦ (rw e (λ h. cc), inr (rw e refl, inr e))
]

pub replace_and_reload-IsReplaced :
    (previous : Option Bytes) (content : Bytes) (a : ReloadAnswers)
    → IsReplaced previous content a (replace_and_reload previous content a)
unfolding replace_and_reload
replace_and_reload-IsReplaced previous content a = elim (Bool-cases a.writes) [
  | inr e ↦ inr (rw e (λ h. cc), inl e, inl (rw e refl))
  | inl e ↦ elim (Bool-cases (a.code == 0 || a.code == 200)) [
    | inl f ↦ inl (rw (e, f) refl, rw (e, f) refl, e, ground (arith, f))
    | inr f ↦
        let back : replace_and_reload previous content a ≡ take_back previous content a =
          rw (e, f) refl in
        let (fails, file) = take_back-file previous content a in
        inr
          (rw back fails, inr (λ h. ground (arith, f, h), λ h. ground (arith, f, h)), rw back file)
  ]
]
