-- ===== src/Health/Breaker/Reload.antt =====
-- What a rebuild of the registry keeps.
use haribon.Prelude.{
  contains, String, ◌≡◌, refl, Bool, Option, none, some, List, [], ◌∷◌, arith, str_eq, eq_iff,
  if◌then◌else◌, ◌∙◌, ℤ,
}
use haribon.Prelude.Dict.{Dict, get, put, get-put, IsMap, put-IsMap}
use haribon.Health.Breaker.Defs.{
  Breaker, Registry, new_breaker, add_breakers, new_registry, carry_breaker, carry_over_loop,
  carry_over,
}

abbrev pub carried : Option Breaker → Option Breaker → Option Breaker
carried none nb = nb
carried (some ob) none = none
carried (some ob) (some nb) =
    some (record nb {
      state = ob.state;
      consecutive_fails = ob.consecutive_fails;
      open_at = ob.open_at;
    })

abbrev copied : Breaker → Dict Breaker → String → Dict Breaker
copied ob m k = elim (get m k) [ none ↦ m | some nb ↦ put m k (carry_breaker ob nb) ]

get-copied :
    (ob : Breaker) (m : Dict Breaker) (k url : String)
    → get (copied ob m k) url ≡ (if str_eq k url then carried (some ob) (get m url) else get m url)
unfolding carry_breaker
get-copied ob m k url = go (get m k) refl
  where
    go :
        (o : Option Breaker)
        → get m k ≡ o
        → get (copied ob m k) url
          ≡ (if str_eq k url then carried (some ob) (get m url) else get m url)
    go none e = rw (e, copied) (ground (arith, e, eq_iff k url))
    go (some nb) e = rw (e, copied) (rw get-put (ground (arith, e, eq_iff k url)))

get-carry_over_loop :
    (old m : Dict Breaker) (url : String)
    → IsMap old
    → get (carry_over_loop old m) url ≡ carried (get old url) (get m url)
unfolding carry_over_loop get
get-carry_over_loop [] m url h = refl
get-carry_over_loop ((k, ob) ∷ old) m url h = ground (
  arith,
  get-carry_over_loop old (copied ob m k) url h.1,
  get-copied ob m k url,
  eq_iff k url,
  h.0,
)

add_breakers-IsMap :
    (t c : ℤ) (l : Bool) (bs : List String) (m : Dict Breaker)
    → IsMap m
    → IsMap (add_breakers t c l bs m)
unfolding add_breakers
add_breakers-IsMap t c l [] m h = h
add_breakers-IsMap t c l (b ∷ bs) m h = add_breakers-IsMap t c l bs _ (put-IsMap m b _ h)

pub new_registry-IsMap :
    (bs : List String) (t c : ℤ) (l : Bool) → IsMap (new_registry bs t c l).breakers
unfolding new_registry
new_registry-IsMap bs t c l = add_breakers-IsMap t c l bs [] tt

get-add_breakers :
    (t c : ℤ) (l : Bool) (bs : List String) (m : Dict Breaker) (url : String)
    → get (add_breakers t c l bs m) url
      ≡ (if contains bs url then some (new_breaker t c l url) else get m url)
unfolding add_breakers
get-add_breakers t c l [] m url = refl
get-add_breakers t c l (b ∷ bs) m url =
    get-add_breakers t c l bs (put m b (new_breaker t c l b)) url
    ∙ rw get-put (ground (arith, eq_iff b url))

pub get-new_registry :
    (bs : List String) (t c : ℤ) (l : Bool) (url : String)
    → get (new_registry bs t c l).breakers url
      ≡ (if contains bs url then some (new_breaker t c l url) else none)
unfolding new_registry get
get-new_registry bs t c l url = get-add_breakers t c l bs [] url

-- CarryOver gives each backend that both registries know the old state, failure count and opening
-- time under the new limits, whatever the order in which the old map is walked; a backend that
-- only one of them knows is left as the new registry has it.
pub get-carry_over :
    (old r : Registry) (url : String)
    → IsMap old.breakers
    → get (carry_over (some old) r).breakers url
      ≡ carried (get old.breakers url) (get r.breakers url)
unfolding carry_over
get-carry_over old r url h = get-carry_over_loop old.breakers r.breakers url h
