-- ===== src/Graph/Engine/Choice.antt =====
-- What `choose_route` picks is legal: what holds of all legal routes holds of it.
use recertia.Prelude.{
  subst, ok-injective, ◌==◌, ◌≡◌, Bool, true, false, Option, none, some, List, [], ◌∷◌, ok, String,
  length, All, find, not, refl, raise_if-eq-ok, str_eq,
}
use recertia.Graph.Routes.{Node, Route, legal_routes}
use recertia.Graph.Engine.{
  NodeOutcome, choose_route, route_among, or_illegal, ambiguous_route, first,
}

or_illegal-ok : (o : Option Route) (r : Route) → or_illegal o ≡ ok r → o ≡ some r
or_illegal-ok none r h = cc
or_illegal-ok (some x) r h = cc

module _ (P : Route → Type 0) where
  first-All : (rs : List Route) (r : Route) → All P rs → first rs ≡ ok r → P r
  first-All [] r h e = cc
  first-All (x ∷ rs) r h e = subst P (ok-injective e) h.0

  All-find : (p : Route → Bool) (rs : List Route) (r : Route) → All P rs → find p rs ≡ some r → P r
  All-find p [] r h e = cc
  All-find p (x ∷ rs) r h e = split (p x) refl (All-find p rs r h.1)
    where
      split : (b : Bool) → p x ≡ b → (find p rs ≡ some r → P r) → P r
      split true t later = subst P (some-inj (rw t at e)) h.0
        where
          some-inj : some x ≡ some r → x ≡ r
          some-inj q = cc
      split false f later = later (rw f at e)

  route_among-All :
      (name : Option String) (rs : List Route) (r : Route)
      → All P rs
      → route_among name rs ≡ ok r
      → P r
  route_among-All (some name) rs r h e =
      All-find (λ x. str_eq x.predicate_name name) rs r h (or_illegal-ok _ r e)
  route_among-All none rs r h e =
      first-All rs r h (raise_if-eq-ok (not (length rs == 1)) ambiguous_route (first rs) e).1

  pub choose_route-All :
      (n : Node) (out : NodeOutcome) (r : Route)
      → All P (legal_routes n out.state)
      → choose_route n out ≡ ok r
      → P r
  unfolding choose_route
  choose_route-All n out r h e = route_among-All out.route (legal_routes n out.state) r h e
