-- ===== src/Health/Best.antt =====
-- Which node the reads go to after a round of probes (mint-sniper/src/main.rs and mint-sniper/src/state.rs).
use seasniper.Common.{
  ℕ, ◌≤◌, String, Bool, true, false, none, some, List, [], ◌∷◌, ◌≡◌, ◌≢◌, refl, subst, arith, map,
  All, Any, ◌⊎◌, sym, leb, select, count_if, is_nil, Bool-cases, inl, inr,
}
use seasniper.Net.{Net}
use seasniper.Health.{
  Probe, insert, sort_by_latency, url_of, is_healthy, is_unhealthy, rank_by_latency,
  best_http_rpc_url,
}
use seasniper.Health.Ranking.{Ascending, rank_by_latency-count, sort_by_latency-Ascending}
use seasniper.Health.Polls.{probe, rpc_health_round, ranked_or}

module _ (P : Probe → Type 0) where
  All-uninsert : (x : Probe) (xs : List Probe) → All P (insert x xs) → P x × All P xs
  unfolding insert
  All-uninsert x [] h = h
  All-uninsert x (y ∷ ys) h = elim (Bool-cases (leb x.latency_ms y.latency_ms)) [
    | inl before ↦ rw before at h
    | inr behind ↦
        let t : P y × All P (insert x ys) = rw behind at h in
        let (px, rest) = All-uninsert x ys t.1 in (px, (t.0, rest))
  ]

  All-insert : (x : Probe) (xs : List Probe) → P x → All P xs → All P (insert x xs)
  unfolding insert
  All-insert x [] px h = (px, tt)
  All-insert x (y ∷ ys) px h = elim (Bool-cases (leb x.latency_ms y.latency_ms)) [
    | inl before ↦ rw before (px, h)
    | inr behind ↦ rw behind (h.0, All-insert x ys px h.1)
  ]

  All-unsort : (xs : List Probe) → All P (sort_by_latency xs) → All P xs
  unfolding sort_by_latency
  All-unsort [] h = tt
  All-unsort (x ∷ xs) h =
      let (px, rest) = All-uninsert x (sort_by_latency xs) h in (px, All-unsort xs rest)

  All-sort : (xs : List Probe) → All P xs → All P (sort_by_latency xs)
  unfolding sort_by_latency
  All-sort [] h = tt
  All-sort (x ∷ xs) h = All-insert x (sort_by_latency xs) h.0 (All-sort xs h.1)

  All-unselect :
      (p : Probe → Bool) (xs : List Probe) → All P (select p xs) → All (λ x. p x ≡ true → P x) xs
  All-unselect p [] h = tt
  All-unselect p (x ∷ xs) h = elim (Bool-cases (p x)) [
    | inl passes ↦
        let t : P x × All P (select p xs) = rw passes at h in (λ e. t.0, All-unselect p xs t.1)
    | inr fails ↦ (λ e. ground arith, All-unselect p xs (rw fails at h))
  ]

module _ (P : Probe → Type 0) where
  Any-uninsert : (x : Probe) (xs : List Probe) → Any P (insert x xs) → P x ⊎ Any P xs
  unfolding insert
  Any-uninsert x [] h = h
  Any-uninsert x (y ∷ ys) h = elim (Bool-cases (leb x.latency_ms y.latency_ms)) [
    | inl before ↦ rw before at h
    | inr behind ↦
        let t : P y ⊎ Any P (insert x ys) = rw behind at h in
        elim t [
          | inl py ↦ inr (inl py)
          | inr rest ↦ elim (Any-uninsert x ys rest) [ inl px ↦ inl px | inr more ↦ inr (inr more) ]
        ]
  ]

  Any-unsort : (xs : List Probe) → Any P (sort_by_latency xs) → Any P xs
  unfolding sort_by_latency
  Any-unsort [] h = h
  Any-unsort (x ∷ xs) h = elim (Any-uninsert x (sort_by_latency xs) h) [
    | inl px ↦ inl px
    | inr rest ↦ inr (Any-unsort xs rest)
  ]

  Any-unselect : (p : Probe → Bool) (xs : List Probe) → Any P (select p xs) → Any P xs
  Any-unselect p [] h = h
  Any-unselect p (x ∷ xs) h = elim (Bool-cases (p x)) [
    | inr fails ↦ inr (Any-unselect p xs (rw fails at h))
    | inl passes ↦
        let t : P x ⊎ Any P (select p xs) = rw passes at h in
        elim t [ inl px ↦ inl px | inr rest ↦ inr (Any-unselect p xs rest) ]
  ]

All-select : (p : Probe → Bool) (xs : List Probe) → All (λ x. p x ≡ true) (select p xs)
All-select p [] = tt
All-select p (x ∷ xs) = elim (Bool-cases (p x)) [
  | inl passes ↦ rw passes (passes, All-select p xs)
  | inr fails ↦ rw fails (All-select p xs)
]

-- As fast as every healthy probe of the round, and healthy itself.
abbrev pub Fastest : Probe → List Probe → Type 0
Fastest best =
    All (λ q. q.healthy ≡ true → (best.healthy ≡ true) × (best.latency_ms ≤ q.latency_ms))

above-Fastest :
    (best : Probe) (xs : List Probe)
    → best.healthy ≡ true
    → All (λ q. is_healthy q ≡ true → best.latency_ms ≤ q.latency_ms) xs
    → Fastest best xs
above-Fastest best [] healthy h = tt
above-Fastest best (x ∷ xs) healthy h = (λ e. (healthy, h.0 e), above-Fastest best xs healthy h.1)

none_healthy-Fastest :
    (best : Probe) (xs : List Probe) → All (λ q. is_healthy q ≡ true → ⊥) xs → Fastest best xs
none_healthy-Fastest best [] h = tt
none_healthy-Fastest best (x ∷ xs) h = (λ e. absurd (h.0 e), none_healthy-Fastest best xs h.1)

nil-none_healthy :
    (xs : List Probe) → select is_healthy xs ≡ [] → All (λ q. is_healthy q ≡ true → ⊥) xs
nil-none_healthy [] e = tt
nil-none_healthy (x ∷ xs) e = elim (Bool-cases (is_healthy x)) [
  | inl healthy ↦ ground arith
  | inr sick ↦ (λ h. ground arith, nil-none_healthy xs (ground (arith, sick, e)))
]

insert-nonempty : (x : Probe) (ys : List Probe) → insert x ys ≢ []
unfolding insert
insert-nonempty x [] h = ground arith
insert-nonempty x (y ∷ ys) h = ground arith

sort-nil : (xs : List Probe) → sort_by_latency xs ≡ [] → xs ≡ []
unfolding sort_by_latency
sort-nil [] e = refl
sort-nil (x ∷ xs) e = absurd (insert-nonempty x (sort_by_latency xs) e)

-- The node that the reads go to, after a round.
pub record BestFirst (round : List Probe) (ranked : List String) : Type 0 where
  pub best : Probe
  pub of_round : Any (λ p. p ≡ best) round
  pub first : best_http_rpc_url ranked ≡ some best.url
  pub fastest : Fastest best round
  pub kept : (p : String → Bool) → count_if p ranked ≡ count_if p (map url_of round)

some_healthy-BestFirst :
    (round : List Probe) (x : Probe) (rest : List Probe)
    → sort_by_latency (select is_healthy round) ≡ x ∷ rest
    → BestFirst round (rank_by_latency round)
unfolding rank_by_latency best_http_rpc_url
some_healthy-BestFirst round x rest e =
    let ascending : Ascending (x ∷ rest) =
      subst Ascending e (sort_by_latency-Ascending (select is_healthy round)) in
    let healthy : All (λ q. is_healthy q ≡ true) (x ∷ rest) =
      subst (All (λ q. is_healthy q ≡ true)) e (
        All-sort (λ q. is_healthy q ≡ true) (select is_healthy round)
          (All-select is_healthy round)) in
    let above : All (λ (q : Probe). x.latency_ms ≤ q.latency_ms) (x ∷ rest) =
      (omega arith, ascending.0) in
    record {
      best = x;
      of_round =
          Any-unselect (λ p. p ≡ x) is_healthy round
            (Any-unsort (λ p. p ≡ x) (select is_healthy round)
              (subst (Any (λ (p : Probe). p ≡ x)) (sym e) (inl refl)));
      first = rw e refl;
      fastest = above-Fastest x round healthy.0 (
          All-unselect (λ q. x.latency_ms ≤ q.latency_ms) is_healthy round
            (All-unsort (λ q. x.latency_ms ≤ q.latency_ms) (select is_healthy round) (rw e above)));
      kept = λ p. rank_by_latency-count p round;
    }

is_unhealthy_lem : (x : Probe) → is_healthy x ≡ false → is_unhealthy x ≡ true
is_unhealthy_lem x h = ground (arith, h)

none_healthy-BestFirst :
    (x : Probe) (rest : List Probe)
    → select is_healthy (x ∷ rest) ≡ []
    → BestFirst (x ∷ rest) (rank_by_latency (x ∷ rest))
unfolding rank_by_latency best_http_rpc_url sort_by_latency
none_healthy-BestFirst x rest e = record {
  best = x;
  of_round = inl refl;
  first = elim (Bool-cases (is_healthy x)) [
    | inl healthy ↦ ground arith
    | inr sick ↦ rw e (simp (is_unhealthy_lem x sick))
  ];
  fastest = none_healthy-Fastest x (x ∷ rest) (nil-none_healthy (x ∷ rest) e);
  kept = λ p. rank_by_latency-count p (x ∷ rest);
}

rank_by_latency-BestFirst :
    (round : List Probe) → is_nil round ≡ false → BestFirst round (rank_by_latency round)
rank_by_latency-BestFirst [] h = ground arith
rank_by_latency-BestFirst (x ∷ rest) h = go (sort_by_latency (select is_healthy (x ∷ rest))) refl
  where
    go :
        (fast : List Probe)
        → sort_by_latency (select is_healthy (x ∷ rest)) ≡ fast
        → BestFirst (x ∷ rest) (rank_by_latency (x ∷ rest))
    go [] e = none_healthy-BestFirst x rest (sort-nil (select is_healthy (x ∷ rest)) e)
    go (y ∷ ys) e = some_healthy-BestFirst (x ∷ rest) y ys e

ranked_or-BestFirst :
    (round : List Probe) (last ranked : List String)
    → BestFirst round ranked
    → BestFirst round (ranked_or last ranked)
unfolding best_http_rpc_url
ranked_or-BestFirst round last [] b = absurd (none-some b.best.url b.first)
  where
    none-some : (url : String) → none ≢ some url
    none-some url e = ground arith
ranked_or-BestFirst round last (url ∷ urls) b = b

-- After a round of probes the reads go to a node of the round's: a healthy one, as fast as every healthy one, where
-- one is healthy; and the ranking is a reordering of the nodes, so that none is lost from round to round.
pub rpc_health_round-BestFirst :
    (net : Net) (elapsed : String → ℕ) (providers last : List String)
    → is_nil providers ≡ false
    → BestFirst (map (probe net elapsed) providers) (rpc_health_round net elapsed providers last).0
unfolding rpc_health_round
rpc_health_round-BestFirst net elapsed [] last h = ground arith
rpc_health_round-BestFirst net elapsed (url ∷ urls) last h =
    let round = map (probe net elapsed) (url ∷ urls) in
    ranked_or-BestFirst round last (rank_by_latency round) (rank_by_latency-BestFirst round refl)
