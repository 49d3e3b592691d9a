-- ===== src/Target/Age.antt =====
-- The binary search for a contract's first block (`estimate_contract_age_secs` of
-- mint-sniper/src/target.rs) ends and finds it.
use seasniper.Common.{
  ℕ, String, is_some, zero, suc, ◌+◌, ◌-◌, ◌/◌, ◌≤◌, ◌<◌, ◌≡◌, inl, inr, Bool, true, false, Option,
  some, ltb, refl, arith, Bool-cases,
}
use seasniper.Common.Results.{ok}
use seasniper.Net.{Net}
use seasniper.Target.{search, age_at, age_of, estimate_contract_age_secs}

-- The answers of a node that answers about every block, of a contract that keeps its code.
pub record KeepsCode (code : ℕ → Option Bool) (view : ℕ → Bool) : Type 0 where
  pub answers : (block : ℕ) → code block ≡ some (view block)
  pub keeps : (block : ℕ) → view block ≡ true → view (suc block) ≡ true

-- The first block with code.
pub record FirstBlock (view : ℕ → Bool) (block : ℕ) : Type 0 where
  pub has : view block ≡ true
  pub none_before : (earlier : ℕ) → earlier < block → view earlier ≡ false

module _ (code : ℕ → Option Bool) (view : ℕ → Bool) (k : KeepsCode code view) where
  keeps_on : (block more : ℕ) → view block ≡ true → view (block + more) ≡ true
  keeps_on block zero h = ground (arith, h)
  keeps_on block (suc more) h = ground (arith, k.keeps (block + more) (keeps_on block more h))

  none_up_to :
      (mid : ℕ) → view mid ≡ false → (earlier : ℕ) → earlier < mid + 1 → view earlier ≡ false
  none_up_to mid no_code earlier h = elim (Bool-cases (view earlier)) [
    | inr absent ↦ absent
    | inl present ↦ ground (arith, keeps_on earlier (mid - earlier) present)
  ]

  abbrev pub Found : (fuel lo hi : ℕ) → Type 0
  Found fuel lo hi = (block : ℕ) × (search code fuel lo hi ≡ some block) × FirstBlock view block

  abbrev middle : (lo hi : ℕ) → ℕ
  middle lo hi = lo + (hi - lo) / 2

  -- A turn that looks at the middle block goes on with the half that has the first block.
  lower :
      (fuel lo hi : ℕ)
      → ltb lo hi ≡ true
      → view (middle lo hi) ≡ true
      → Found fuel lo (middle lo hi)
      → Found (suc fuel) lo hi
  unfolding search
  lower fuel lo hi more present (block, found, first) =
      (block, ground (arith, k.answers (middle lo hi), found, present), first)

  upper :
      (fuel lo hi : ℕ)
      → ltb lo hi ≡ true
      → view (middle lo hi) ≡ false
      → Found fuel (middle lo hi + 1) hi
      → Found (suc fuel) lo hi
  unfolding search
  upper fuel lo hi more absent (block, found, first) =
      (block, ground (arith, k.answers (middle lo hi), found, absent), first)

  -- On a node that answers, and for a contract that keeps its code and has it at the upper end, the
  -- search ends within as many turns as the range has blocks and returns the first block with code.
  pub search-FirstBlock :
      (fuel lo hi : ℕ)
      → hi ≤ lo + fuel
      → lo ≤ hi
      → view hi ≡ true
      → ((earlier : ℕ) → earlier < lo → view earlier ≡ false)
      → Found fuel lo hi
  unfolding search
  search-FirstBlock zero lo hi enough ordered last before =
      let same : hi ≡ lo = omega (arith, enough, ordered) in
      (lo, refl, record { has = rw⁻¹ same last; none_before = before })
  search-FirstBlock (suc fuel) lo hi enough ordered last before = elim (Bool-cases (ltb lo hi)) [
    | inr empty ↦
        let same : hi ≡ lo = ground arith in
        (lo, ground arith, record { has = rw⁻¹ same last; none_before = before })
    | inl more ↦ elim (Bool-cases (view (middle lo hi))) [
      | inl present ↦
          lower fuel lo hi more present
            (search-FirstBlock fuel lo (middle lo hi) (ground arith) (ground arith) present before)
      | inr absent ↦ upper fuel lo hi more absent (
          search-FirstBlock fuel (middle lo hi + 1) hi (ground arith) (ground arith) last
            (none_up_to (middle lo hi) absent))
    ]
  ]

-- The age that is estimated for a contract with code is that of the first block that has its code, on a
-- node that answers about every block and for a contract that keeps its code.
pub estimate_contract_age_secs-FirstBlock :
    (net : Net) (url : String) (address latest : ℕ) (view : ℕ → Bool)
    → KeepsCode (net.has_code_at url address) view
    → is_some (net.parse_url url) ≡ true
    → net.get_block_number url ≡ ok latest
    → view latest ≡ true
    → (block : ℕ) × FirstBlock view block
      × (estimate_contract_age_secs net url address
          ≡ age_of net.now (net.block_timestamp url block))
unfolding estimate_contract_age_secs age_at
estimate_contract_age_secs-FirstBlock net url address latest view k parsed asked last =
    let (block, found, first) =
      search-FirstBlock (net.has_code_at url address) view k latest 0 latest (omega arith)
        (omega arith) last (λ earlier h. ground (arith, h)) in
    (block, first, ground (arith, parsed, asked, k.answers latest, last, found))
