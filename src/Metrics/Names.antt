-- ===== src/Metrics/Names.antt =====
-- internal/metrics/metrics.go, MetricName: the name of a metric with a label.
use Prim.Native.Nat.{zero, ◌+◌}
use Prim.Native.String.{◌++◌, len, slice}
use haribon.Prelude.{
  ◌≡◌, refl, sym, ap, ◌∙◌, String, Bool, true, false, str_eq, eq_iff, arith, Bool-cases, inl, inr,
  ◌≢◌, false≢true,
}
use text.Mathlib.TextLemmas.{append_assoc}
use text.Mathlib.TextPositions.{len-append, slice-append_left, slice-append_right}

-- func MetricName
unfoldable pub metric_name : String → String → String → String
metric_name base label value = base ++ ("{" ++ (label ++ ("=\"" ++ (value ++ "\"}"))))

append_left_cancel : (s t u : String) → s ++ t ≡ s ++ u → t ≡ u
append_left_cancel s t u e =
    sym (slice-append_right s t)
    ∙ ap (λ k. slice (s ++ t) (len s) k) (sym (len-append s t))
    ∙ ap (λ v. slice v (len s) (len v)) e
    ∙ ap (λ k. slice (s ++ u) (len s) k) (len-append s u)
    ∙ slice-append_right s u

append_right_cancel : (t u s : String) → t ++ s ≡ u ++ s → t ≡ u
append_right_cancel t u s e =
    let total : len t + len s ≡ len u + len s = sym (len-append t s) ∙ ap len e ∙ len-append u s in
    let same : len t ≡ len u = omega (arith, total) in
    sym (slice-append_left t s)
    ∙ ap (λ v. slice v zero (len t)) e
    ∙ ap (λ k. slice (u ++ s) zero k) same
    ∙ slice-append_left u s

metric_name_injective :
    (base label v w : String) → metric_name base label v ≡ metric_name base label w → v ≡ w
unfolding metric_name
metric_name_injective base label v w e = append_right_cancel v w "\"}" (
    append_left_cancel "=\"" _ _
      (append_left_cancel label _ _ (append_left_cancel "{" _ _ (append_left_cancel base _ _ e))))

Bool_by_iff : {b c : Bool} → (b ≡ true → c ≡ true) → (c ≡ true → b ≡ true) → b ≡ c
Bool_by_iff {b = true} to from = sym (to refl)
Bool_by_iff {b = false} {c = true} to from = from refl
Bool_by_iff {b = false} {c = false} to from = refl

beginnings_differ :
    (s t s' t' x y : String)
    → len s ≡ len t
    → s ≢ t
    → str_eq ((s ++ s') ++ x) ((t ++ t') ++ y) ≡ false
beginnings_differ s t s' t' x y same other = elim (Bool-cases _) [
  | inr differ ↦ differ
  | inl eq ↦
      elim (other (
        sym (slice-append_left s (s' ++ x))
        ∙ ap (λ z. slice z zero (len s))
            (sym (append_assoc s s' x) ∙ (eq_iff _ _).0 eq ∙ append_assoc t t' y)
        ∙ ap (λ k. slice (t ++ (t' ++ y)) zero k) same
        ∙ slice-append_left t (t' ++ y))) [ ]
]

-- Two backends have two names.
pub metric_name-eq :
    (base label v w : String)
    → str_eq (metric_name base label v) (metric_name base label w) ≡ str_eq v w
metric_name-eq base label v w =
    Bool_by_iff (λ h. (eq_iff v w).1 (metric_name_injective base label v w ((eq_iff _ _).0 h)))
      (λ h. (eq_iff _ _).1 (ap (metric_name base label) ((eq_iff v w).0 h)))

-- The two gauges of a backend that a rebuild sets are two names.
pub healthy_is_not_state :
    (v w : String)
    → str_eq
        (metric_name "haribon_backend_healthy" "backend" v)
        (metric_name "haribon_breaker_state" "backend" w)
      ≡ false
unfolding metric_name
healthy_is_not_state v w =
    beginnings_differ "haribon_ba" "haribon_br" "ckend_healthy" "eaker_state" _ _ refl
      (λ e. false≢true ((eq_iff "haribon_ba" "haribon_br").1 e))
