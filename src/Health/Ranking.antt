-- ===== src/Health/Ranking.antt =====
-- The ranking loses no node, puts the healthy ones first, fastest first, and keeps ties in order.
use seasniper.Common.{
  ℕ, All, ◌+◌, ◌≤◌, String, Bool, List, [], ◌∷◌, ◌++◌, ◌≡◌, refl, arith, map, leb, ◌==◌, select,
  count_if, count_if-append, Bool-cases, inl, inr,
}
use seasniper.Health.{
  Probe, insert, sort_by_latency, url_of, is_healthy, is_unhealthy, rank_by_latency,
}

module _ (p : String → Bool) where
  abbrev count_urls : List Probe → ℕ
  count_urls xs = count_if p (map url_of xs)

  count-insert : (x : Probe) (xs : List Probe) → count_urls (insert x xs) ≡ count_urls (x ∷ xs)
  unfolding insert
  count-insert x [] = refl
  count-insert x (y ∷ ys) = ground (arith, count-insert x ys)

  count-sort : (xs : List Probe) → count_urls (sort_by_latency xs) ≡ count_urls xs
  unfolding sort_by_latency
  count-sort [] = refl
  count-sort (x ∷ xs) = ground (arith, count-insert x (sort_by_latency xs), count-sort xs)

  count-split :
      (xs : List Probe)
      → count_urls (select is_healthy xs) + count_urls (select is_unhealthy xs) ≡ count_urls xs
  count-split [] = refl
  count-split (x ∷ xs) = ground (arith, count-split xs)

  -- The ranking is a reordering of the round: whatever is counted, it counts as often in the ranking.
  pub rank_by_latency-count :
      (round : List Probe) → count_if p (rank_by_latency round) ≡ count_if p (map url_of round)
  unfolding rank_by_latency
  rank_by_latency-count round = ground (
    arith,
    count_if-append p (map url_of (sort_by_latency (select is_healthy round)))
        (map url_of (select is_unhealthy round)),
    count-sort (select is_healthy round),
    count-split round,
  )

-- Latencies that do not fall.
abbrev pub AllAbove : ℕ → List Probe → Type 0
AllAbove k = All (λ (x : Probe). k ≤ x.latency_ms)

abbrev pub Ascending : List Probe → Type 0
Ascending [] = Unit
Ascending (x ∷ xs) = AllAbove x.latency_ms xs × Ascending xs

-- The probes of one latency, in order.
abbrev pub at_latency : ℕ → List Probe → List Probe
at_latency k = select (λ (x : Probe). x.latency_ms == k)

AllAbove-trans : (j k : ℕ) (xs : List Probe) → j ≤ k → AllAbove k xs → AllAbove j xs
AllAbove-trans j k [] h a = tt
AllAbove-trans j k (x ∷ xs) h a = (omega (arith, h, a.0), AllAbove-trans j k xs h a.1)

insert-AllAbove :
    (k : ℕ) (x : Probe) (xs : List Probe)
    → k ≤ x.latency_ms
    → AllAbove k xs
    → AllAbove k (insert x xs)
unfolding insert
insert-AllAbove k x [] h a = (h, tt)
insert-AllAbove k x (y ∷ ys) h a = elim (Bool-cases (leb x.latency_ms y.latency_ms)) [
  | inl before ↦ rw before (h, a)
  | inr behind ↦ rw behind (a.0, insert-AllAbove k x ys h a.1)
]

insert-Ascending : (x : Probe) (xs : List Probe) → Ascending xs → Ascending (insert x xs)
unfolding insert
insert-Ascending x [] h = (tt, tt)
insert-Ascending x (y ∷ ys) h = elim (Bool-cases (leb x.latency_ms y.latency_ms)) [
  | inl before ↦
      let less : x.latency_ms ≤ y.latency_ms = ground arith in
      rw before ((less, AllAbove-trans x.latency_ms y.latency_ms ys less h.0), h)
  | inr behind ↦
      rw behind (insert-AllAbove y.latency_ms x ys (ground arith) h.0, insert-Ascending x ys h.1)
]

at_latency-insert :
    (k : ℕ) (x : Probe) (xs : List Probe) → at_latency k (insert x xs) ≡ at_latency k (x ∷ xs)
unfolding insert
at_latency-insert k x [] = refl
at_latency-insert k x (y ∷ ys) = ground (arith, at_latency-insert k x ys)

pub sort_by_latency-Ascending : (xs : List Probe) → Ascending (sort_by_latency xs)
unfolding sort_by_latency
sort_by_latency-Ascending [] = tt
sort_by_latency-Ascending (x ∷ xs) =
    insert-Ascending x (sort_by_latency xs) (sort_by_latency-Ascending xs)

at_latency-sort : (k : ℕ) (xs : List Probe) → at_latency k (sort_by_latency xs) ≡ at_latency k xs
unfolding sort_by_latency
at_latency-sort k [] = refl
at_latency-sort k (x ∷ xs) =
    ground (arith, at_latency-insert k x (sort_by_latency xs), at_latency-sort k xs)

-- The ranking is the healthy probes in ascending latency, those of one latency in the round's order,
-- and then the others in the round's order.
pub record Ranked (round : List Probe) : Type 0 where
  pub fast : List Probe
  pub whole : rank_by_latency round ≡ map url_of fast ++ map url_of (select is_unhealthy round)
  pub ascending : Ascending fast
  pub stable : (k : ℕ) → at_latency k fast ≡ at_latency k (select is_healthy round)

-- Healthy nodes come first, fastest first and ties in the order of the round; the others follow in the
-- order of the round.
pub rank_by_latency-Ranked : (round : List Probe) → Ranked round
unfolding rank_by_latency
rank_by_latency-Ranked round = record {
  fast = sort_by_latency (select is_healthy round);
  whole = refl;
  ascending = sort_by_latency-Ascending (select is_healthy round);
  stable = λ k. at_latency-sort k (select is_healthy round);
}
