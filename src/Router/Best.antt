-- ===== src/Router/Best.antt =====
-- src/router.cc: the loop over the table, and the table after `add_route`.
use cs144_2024_winter.Base.{
  ℕ, ◌≤◌, ◌≡◌, refl, arith, Bool, true, ◌&&◌, List, [], ◌∷◌, Option, none, some, ◌==◌,
  if◌then◌else◌, ◌⊎◌, inl, inr, sym, subst, Bool-cases, Option-cases,
}
use cs144_2024_winter.Router.{Route, if_match, longer, best_route, Router}

-- The route stands in the table.
abbrev pub In : Route → List Route → Type 0
In e [] = ⊥
In e (f ∷ fs) = (e ≡ f) ⊎ In e fs

abbrev pub applies : ℕ → Route → Bool
applies dst e = if_match dst e.route_prefix e.prefix_length

-- What `best` may be when the loop still has `table` to go: nothing that applies was passed over.
abbrev Better : ℕ → Route → Option Route → Type 0
Better dst e none = ⊥
Better dst e (some b) = e.prefix_length ≤ b.prefix_length

-- A round keeps what is better, and a route that applies is met by a better one.
round_keeps :
    (dst : ℕ) (best : Option Route) (f e : Route)
    → Better dst e best
    → Better dst e (if applies dst f && longer f.prefix_length best then some f else best)
unfolding longer
round_keeps dst none f e h = absurd h
round_keeps dst (some b) f e h = ground (arith, h)

round_meets :
    (dst : ℕ) (best : Option Route) (f : Route)
    → applies dst f ≡ true
    → Better dst f (if applies dst f && longer f.prefix_length best then some f else best)
unfolding longer
round_meets dst none f h = ground (arith, h)
round_meets dst (some b) f h = ground (arith, h)

-- The loop never ends with less than it had.
best_route-Better :
    (dst : ℕ) (best : Option Route) (table : List Route) (e : Route)
    → Better dst e best
    → Better dst e (best_route dst best table)
unfolding best_route
best_route-Better dst best [] e h = h
best_route-Better dst best (f ∷ fs) e h =
    best_route-Better dst (if applies dst f && longer f.prefix_length best then some f else best) fs
      e (round_keeps dst best f e h)

best_route_meets :
    (dst : ℕ) (best : Option Route) (table : List Route) (e : Route)
    → In e table
    → applies dst e ≡ true
    → Better dst e (best_route dst best table)
unfolding best_route
best_route_meets dst best [] e h a = absurd h
best_route_meets dst best (f ∷ fs) e (inl same) a =
    best_route-Better dst (if applies dst f && longer f.prefix_length best then some f else best) fs
      e
      (subst
        (λ g. Better dst g (if applies dst f && longer f.prefix_length best then some f else best))
        (sym same) (round_meets dst best f (subst (λ g. applies dst g ≡ true) same a)))
best_route_meets dst best (f ∷ fs) e (inr later) a =
    best_route_meets dst (if applies dst f && longer f.prefix_length best then some f else best) fs
      e later a

-- Where the result comes from.
abbrev From : ℕ → Option Route → List Route → Option Route → Type 0
From dst best table none = Unit {0}
From dst best table (some e) = (best ≡ some e) ⊎ (In e table × (applies dst e ≡ true))

round_origin :
    (dst : ℕ) (best : Option Route) (f : Route) (fs : List Route) (result : Option Route)
    → From dst (if applies dst f && longer f.prefix_length best then some f else best) fs result
    → From dst best (f ∷ fs) result
round_origin dst best f fs none h = tt
round_origin dst best f fs (some e) (inr k) = inr (inr k.0, k.1)
round_origin dst best f fs (some e) (inl k) =
    elim (Bool-cases (applies dst f && longer f.prefix_length best)) [
      | inl taken ↦
          let same : f ≡ e = ground (arith, taken, k) in
          inr (inl (sym same), subst (λ g. applies dst g ≡ true) same (ground (arith, taken)))
      | inr kept ↦ inl (rw kept at k)
    ]

best_route-From :
    (dst : ℕ) (best : Option Route) (table : List Route)
    → From dst best table (best_route dst best table)
unfolding best_route
best_route-From dst none [] = tt
best_route-From dst (some b) [] = inl refl
best_route-From dst best (f ∷ fs) =
    round_origin dst best f fs
      (best_route dst (if applies dst f && longer f.prefix_length best then some f else best) fs)
      (best_route-From dst (if applies dst f && longer f.prefix_length best then some f else best)
        fs)

-- The route that the loop picks stands in the table and applies, and no route of the table that
-- applies is longer.
best_route_longest :
    (dst : ℕ) (table : List Route) (e f : Route)
    → best_route dst none table ≡ some e
    → In f table
    → applies dst f ≡ true
    → In e table × (applies dst e ≡ true) × (f.prefix_length ≤ e.prefix_length)
best_route_longest dst table e f picked h a =
    let (stands, fits) =
      came (subst (From dst none table) picked (best_route-From dst none table)) in
    (stands, fits, subst (Better dst f) picked (best_route_meets dst none table f h a))
  where
    came : From dst none table (some e) → In e table × (applies dst e ≡ true)
    came (inl k) = cc
    came (inr k) = k

-- With a route that applies in the table, the loop picks one.
best_route_found :
    (dst : ℕ) (table : List Route) (f : Route)
    → In f table
    → applies dst f ≡ true
    → (e : Route) × (best_route dst none table ≡ some e)
best_route_found dst table f h a = elim (Option-cases (best_route dst none table)) [
  | inl missed ↦ absurd (subst (Better dst f) missed (best_route_meets dst none table f h a))
  | inr (e, found) ↦ (e, found)
]

-- With a route in the table that applies to the destination, the loop picks one that stands in the
-- table, applies, and is at least as long.
pub best_route_lem :
    (dst : ℕ) (table : List Route) (f : Route)
    → In f table
    → applies dst f ≡ true
    → (e : Route) × (best_route dst none table ≡ some e)
      × In e table
      × (applies dst e ≡ true)
      × (f.prefix_length ≤ e.prefix_length)
best_route_lem dst table f h a =
    let (e, found) = best_route_found dst table f h a in
    let (stands, fits, long) = best_route_longest dst table e f found h a in
    (e, found, stands, fits, long)

same_prefix : Route → Route → Bool
same_prefix e f = (e.route_prefix == f.route_prefix) && (e.prefix_length == f.prefix_length)
