-- ===== src/Khi/Status/Details.antt =====
-- What the Kawasaki node reports: enabled exactly without an error code, and otherwise a text that
-- joins the messages.
use Prim.Native.String.append
use Prim.Native.String.{◌++◌}
use text.Mathlib.TextLemmas.{append-nil, append_assoc}
use icon_hwm_controller.Prelude.{
  ℤ, String, ◌≡◌, ◌≢◌, ◌↔◌, inl, inr, refl, ap, ◌∙◌, true, false, List, [], ◌∷◌, some, arith,
  if◌then◌else◌, empty_str, empty_str-concat, Bool-cases,
}
use icon_hwm_controller.OperationalStatus.{faulted, enabled}
use icon_hwm_controller.Khi.Status.{ErrorInfo, join_from, error_details, to_operational_status}

-- The description of the loop: the empty texts in front are dropped, and the rest is separated.
abbrev pub drop_empty : List String → List String
drop_empty [] = []
drop_empty (s ∷ ss) = if empty_str s then drop_empty ss else s ∷ ss

abbrev separated : String → List String → String
separated separator [] = ""
separated separator (s ∷ ss) = separator ++ (s ++ separated separator ss)

abbrev pub intercalate : String → List String → String
intercalate separator [] = ""
intercalate separator (s ∷ ss) = s ++ separated separator ss

empty_str-append : (s t : String) → empty_str s ≡ false → empty_str (s ++ t) ≡ false
empty_str-append String.[] t h = cc
empty_str-append (String.◌∷◌ c s) t h = rw (append.cons c s t)

eq_empty : (s : String) → empty_str s ≡ true → s ≡ ""
eq_empty String.[] h = refl
eq_empty (String.◌∷◌ c s) h = cc

-- Once something is there, every text is added behind a separator.
join_from-separated :
    (separator acc : String) (ss : List String)
    → empty_str acc ≡ false
    → join_from separator acc ss ≡ acc ++ separated separator ss
unfolding join_from
join_from-separated separator acc [] h = rw append-nil
join_from-separated separator acc (s ∷ ss) h = rw h (
    join_from-separated separator (acc ++ (separator ++ s)) ss
      (empty_str-append acc (separator ++ s) h)
    ∙ append_assoc acc (separator ++ s) (separated separator ss)
    ∙ ap (λ (x : String). acc ++ x) (append_assoc separator s (separated separator ss)))

-- The loop from the empty text gives the texts with the separator between them, without the empty
-- ones in front.
pub join_from-intercalate :
    (separator : String) (ss : List String)
    → join_from separator "" ss ≡ intercalate separator (drop_empty ss)
unfolding join_from
join_from-intercalate separator [] = refl
join_from-intercalate separator (s ∷ ss) = elim (Bool-cases (empty_str s)) [
  | inl e ↦ rw (eq_empty s e) (join_from-intercalate separator ss)
  | inr n ↦ rw n (join_from-separated separator s ss n)
]

-- The state and the message of a report tell exactly whether there is an error code.
abbrev Reports : List ℤ → List String → Type 0
Reports codes msgs =
    let o = to_operational_status (some (record { error_codes = codes; error_msgs = msgs })) in
    ((o.state ≡ enabled) ↔ (codes ≡ []))
    × ((o.state ≡ faulted) ↔ (codes ≢ []))
    × ((empty_str o.message ≡ true) ↔ (codes ≡ []))

reports : (codes : List ℤ) (msgs : List String) → Reports codes msgs
unfolding to_operational_status
reports [] msgs =
    ((λ _. refl, λ _. refl), (λ e. ground arith, λ n. absurd (n refl)), (λ _. refl, λ _. refl))
reports (c ∷ cs) msgs =
    let text =
      empty_str-concat "KHI robot error active: "
        (error_details (record { error_codes = c ∷ cs; error_msgs = msgs })
          ∷ ". Call clear_faults to recover."
          ∷ [])
        refl in
    (
      (λ e. ground arith, λ e. ground arith),
      (λ _ e. ground arith, λ _. refl),
      (λ e. cc (text, e), λ e. ground arith),
    )

-- For every report, the state is `enabled` exactly without an error code, `faulted` exactly with one,
-- and the message is empty exactly without one.
pub error_iff :
    (e : ErrorInfo)
    → (((to_operational_status (some e)).state ≡ enabled) ↔ (e.error_codes ≡ []))
      × (((to_operational_status (some e)).state ≡ faulted) ↔ (e.error_codes ≢ []))
      × ((empty_str (to_operational_status (some e)).message ≡ true) ↔ (e.error_codes ≡ []))
error_iff e = reports e.error_codes e.error_msgs
