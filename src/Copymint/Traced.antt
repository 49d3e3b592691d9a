-- ===== src/Copymint/Traced.antt =====
-- Where the messages of the copymint watcher come from (mint-sniper/src/copymint.rs).
use seasniper.Common.{
  length, Any, any, ◌==◌, ℕ, String, true, Option, none, some, List, [], ◌∷◌, ◌++◌, ◌≡◌, refl, sym,
  ap, ◌∙◌, subst, arith, All, All-append, is_nil, Bool-cases, Option-cases, inl, inr,
}
use seasniper.Common.Results.{Result, ok, err}
use seasniper.Failure.{Failure}
use seasniper.Bus.{info, watching}
use seasniper.Net.{Net}
use seasniper.Effect.{Effect, ControlMsg, send, emit, spawn, abort, broadcast, log_now}
use seasniper.Seadrop.{resolve_seadrop_address}
use seasniper.Copymint.{handle_candidate}
use seasniper.Copymint.Decisions.{messages, AutoFired, handle_candidate-AutoFired}
use seasniper.Copymint.Watch.{
  Pending, decode_mint_public_call, matches, on_decoded, watch_tx, watch_once, has_prefix, is_to,
}
use seasniper.Copymint.Loop.{
  Turn, tracked_of, tracking_notes, then_effects, watch_with, watch_at, watch_tracked, watch_turn,
}

-- A text of bytes that begins with another.
abbrev Begins : List ℕ → List ℕ → Type 0
Begins xs ys = (rest : List ℕ) × (ys ≡ xs ++ rest)

any-Any : (a : ℕ) (xs : List ℕ) → any (λ x. x == a) xs ≡ true → Any (λ x. x ≡ a) xs
any-Any a [] h = ground arith
any-Any a (x ∷ xs) h = elim (Bool-cases (x == a)) [
  | inl same ↦ inl (ground (arith, same))
  | inr other ↦ inr (any-Any a xs (ground (arith, other, h)))
]

is_to-some : (a : ℕ) (to : Option ℕ) → is_to a to ≡ true → to ≡ some a
is_to-some a none h = ground arith
is_to-some a (some b) h = ground (arith, h)

has_prefix-Begins : (xs ys : List ℕ) → has_prefix xs ys ≡ true → Begins xs ys
has_prefix-Begins [] ys h = (ys, refl)
has_prefix-Begins (x ∷ xs) [] h = ground arith
has_prefix-Begins (x ∷ xs) (y ∷ ys) h =
    let (rest, e) = has_prefix-Begins xs ys (ground (arith, h)) in (rest, ground (arith, e, h))

matched_lem :
    (p : Pending) (tracked : List ℕ) (seadrop : ℕ)
    → matches p.net tracked seadrop p.tx ≡ true
    → (any (λ a. a == p.tx.signer) tracked ≡ true)
      × (is_to seadrop p.tx.to ≡ true)
      × (has_prefix p.net.mint_public_selector p.tx.input ≡ true)
unfolding matches
matched_lem p tracked seadrop h = (ground (arith, h), ground (arith, h), ground (arith, h))

-- The pending transaction that a message answers.
pub record Source (tracked : List ℕ) (seadrop : ℕ) (p : Pending) (msg : ControlMsg) : Type 0 where
  pub nft : ℕ
  pub recipient : ℕ
  pub by_tracked : Any (λ a. a ≡ p.tx.signer) tracked
  pub to_seadrop : p.tx.to ≡ some seadrop
  pub mints : Begins p.net.mint_public_selector p.tx.input
  pub decoded : decode_mint_public_call p.net p.tx.input ≡ ok (nft, recipient)
  pub fired : AutoFired p.net p.cfg p.best nft recipient (msg ∷ [])

messages-append : (xs ys : List Effect) → messages (xs ++ ys) ≡ messages xs ++ messages ys
messages-append [] ys = refl
messages-append (send m ∷ xs) ys = ap (λ ms. m ∷ ms) (messages-append xs ys)
messages-append (emit e ∷ xs) ys = messages-append xs ys
messages-append (spawn t ∷ xs) ys = messages-append xs ys
messages-append (abort t ∷ xs) ys = messages-append xs ys
messages-append (broadcast u t ∷ xs) ys = messages-append xs ys

module _ (tracked : List ℕ) (seadrop : ℕ) where
  candidate-Source :
      (p : Pending) (nft recipient : ℕ) (effects : List Effect)
      → matches p.net tracked seadrop p.tx ≡ true
      → decode_mint_public_call p.net p.tx.input ≡ ok (nft, recipient)
      → handle_candidate p.net p.cfg p.best p.tx.signer nft recipient ≡ some effects
      → All (Source tracked seadrop p) (messages effects)
  candidate-Source p nft recipient effects matched decoded e =
      elim (handle_candidate-AutoFired p.net p.cfg p.best p.tx.signer nft recipient effects e) [
        | inl silent ↦ subst (All (Source tracked seadrop p)) (sym silent) tt
        | inr fired ↦ subst (All (Source tracked seadrop p)) (sym fired.fire) (
          record {
            nft = nft;
            recipient = recipient;
            by_tracked = any-Any p.tx.signer tracked (matched_lem p tracked seadrop matched).0;
            to_seadrop = (is_to-some seadrop p.tx.to (matched_lem p tracked seadrop matched).1);
            mints =
                has_prefix-Begins p.net.mint_public_selector p.tx.input
                  (matched_lem p tracked seadrop matched).2;
            decoded = decoded;
            fired = subst (AutoFired p.net p.cfg p.best nft recipient) fired.fire fired;
          },
          tt,
        )
      ]

  on_decoded-Source :
      (p : Pending) (effects : List Effect) (r : Result Failure (ℕ × ℕ))
      → matches p.net tracked seadrop p.tx ≡ true
      → decode_mint_public_call p.net p.tx.input ≡ r
      → on_decoded p.net p.cfg p.best p.tx.signer r ≡ some effects
      → All (Source tracked seadrop p) (messages effects)
  unfolding on_decoded
  on_decoded-Source p effects (err failure) matched decoded e =
      let none_sent : effects ≡ [] = ground arith in rw none_sent tt
  on_decoded-Source p effects (ok (nft, recipient)) matched decoded e =
      candidate-Source p nft recipient effects matched decoded e

  watch_tx-Source :
      (p : Pending) (effects : List Effect)
      → watch_tx p.net p.cfg p.best tracked seadrop p.tx ≡ some effects
      → All (Source tracked seadrop p) (messages effects)
  unfolding watch_tx
  watch_tx-Source p effects e = elim (Bool-cases (matches p.net tracked seadrop p.tx)) [
    | inr other ↦ let none_sent : effects ≡ [] = ground arith in rw none_sent tt
    | inl matched ↦
        on_decoded-Source p effects (decode_mint_public_call p.net p.tx.input) matched refl
          (ground (arith, matched, e))
  ]

All-weaken :
    {A : Type 0} (P Q : A → Type 0) (xs : List A) → ((x : A) → P x → Q x) → All P xs → All Q xs
All-weaken P Q [] f h = tt
All-weaken P Q (x ∷ xs) f h = (f x h.0, All-weaken P Q xs f h.1)

module _ (tracked : List ℕ) (seadrop : ℕ) where
  -- A message of a stream answers one of its transactions.
  abbrev Answers : List Pending → ControlMsg → Type 0
  Answers stream msg = Any (λ p. Source tracked seadrop p msg) stream

  watch_once-Answers :
      (stream : List Pending) (effects : List Effect)
      → watch_once tracked seadrop stream ≡ some effects
      → All (Answers stream) (messages effects)
  unfolding watch_once
  watch_once-Answers [] effects e = let none_sent : effects ≡ [] = ground arith in rw none_sent tt
  watch_once-Answers (p ∷ ps) effects e =
      elim (Option-cases (watch_tx p.net p.cfg p.best tracked seadrop p.tx)) [
        | inl panic ↦ ground arith
        | inr (now, came) ↦ elim (Option-cases (watch_once tracked seadrop ps)) [
          | inl panic ↦ ground arith
          | inr (later, rest) ↦
              let whole : effects ≡ now ++ later = ground arith in
              subst (All (Answers (p ∷ ps))) (sym (ap messages whole ∙ messages-append now later)) (
                All-append (Answers (p ∷ ps)) (messages now) (messages later)
                  (All-weaken (Source tracked seadrop p) (Answers (p ∷ ps)) (messages now)
                    (λ m s. inl s) (watch_tx-Source tracked seadrop p now came))
                  (All-weaken (Answers ps) (Answers (p ∷ ps)) (messages later) (λ m s. inr s)
                    (watch_once-Answers ps later rest)))
        ]
      ]

-- What a message of a turn rests on.
pub record Traced (t : Turn) (msg : ControlMsg) : Type 0 where
  pub stream : List Pending
  pub seadrop : ℕ
  pub connected : t.subscription ≡ ok stream
  pub resolved : resolve_seadrop_address t.net t.cfg.seadrop_address ≡ ok seadrop
  pub answers : Any (λ p. Source (tracked_of t.net t.cfg.tracked_wallets) seadrop p msg) stream

then_effects-messages :
    (P : ControlMsg → Type 0) (first effects : List Effect) (r : Option (List Effect))
    → messages first ≡ []
    → then_effects first r ≡ some effects
    → ((more : List Effect) → r ≡ some more → All P (messages more))
    → All P (messages effects)
then_effects-messages P first effects none quiet e more = ground arith
then_effects-messages P first effects (some rest) quiet e more =
    let whole : effects ≡ first ++ rest = ground arith in
    subst (All P)
      (sym (ap messages whole ∙ messages-append first rest ∙ ap (λ ms. ms ++ messages rest) quiet))
      (more rest refl)

tracking_notes-quiet :
    (net : Net) (entries : List String) → messages (tracking_notes net entries) ≡ []
tracking_notes-quiet net [] = refl
tracking_notes-quiet net (x ∷ xs) = elim (Option-cases (net.parse_address x)) [
  | inl bad ↦ rw bad (tracking_notes-quiet net xs)
  | inr (a, good) ↦ rw good (tracking_notes-quiet net xs)
]

module _ (t : Turn) where
  watch_with-Traced :
      (seadrop : ℕ) (r : Result Failure (List Pending)) (effects : List Effect)
      → t.subscription ≡ r
      → resolve_seadrop_address t.net t.cfg.seadrop_address ≡ ok seadrop
      → watch_with t.net (tracked_of t.net t.cfg.tracked_wallets) seadrop r ≡ some effects
      → All (Traced t) (messages effects)
  unfolding watch_with
  watch_with-Traced seadrop (err failure) effects connected resolved e =
      let only_noted : messages effects ≡ [] = ground arith in
      subst (All (Traced t)) (sym only_noted) tt
  watch_with-Traced seadrop (ok stream) effects connected resolved e =
      let tracked = tracked_of t.net t.cfg.tracked_wallets in
      then_effects-messages (Traced t) (log_now t.net info (watching (length tracked)) ∷ []) effects
        (watch_once tracked seadrop stream) refl e
        (λ more watched.
          All-weaken (Answers tracked seadrop stream) (Traced t) (messages more)
            (λ m answers. record {
              stream = stream;
              seadrop = seadrop;
              connected = connected;
              resolved = resolved;
              answers = answers;
            })
            (watch_once-Answers tracked seadrop stream more watched))

  watch_at-Traced :
      (r : Result Failure ℕ) (effects : List Effect)
      → resolve_seadrop_address t.net t.cfg.seadrop_address ≡ r
      → watch_at t (tracked_of t.net t.cfg.tracked_wallets) r ≡ some effects
      → All (Traced t) (messages effects)
  watch_at-Traced (err failure) effects resolved e =
      let only_noted : messages effects ≡ [] = ground arith in
      subst (All (Traced t)) (sym only_noted) tt
  watch_at-Traced (ok seadrop) effects resolved e =
      watch_with-Traced seadrop t.subscription effects refl resolved e

  watch_tracked-Traced :
      (effects : List Effect)
      → watch_tracked t (tracked_of t.net t.cfg.tracked_wallets) ≡ some effects
      → All (Traced t) (messages effects)
  watch_tracked-Traced effects e =
      elim (Bool-cases (is_nil (tracked_of t.net t.cfg.tracked_wallets))) [
        | inl empty ↦
            let only_noted : messages effects ≡ [] = ground arith in
            subst (All (Traced t)) (sym only_noted) tt
        | inr some_tracked ↦
            watch_at-Traced (resolve_seadrop_address t.net t.cfg.seadrop_address) effects refl
              (ground (arith, some_tracked, e))
      ]

-- Every message that a turn of the copymint watcher sends answers a pending transaction of its own subscription: one
-- to the configured SeaDrop, by a wallet that was tracked when the turn began, whose call decodes, and whose drop
-- was read, when it was seen, as live and free, with free auto-fire on; and it fires that drop at value zero.
pub watch_turn-Traced :
    (t : Turn) (effects : List Effect)
    → watch_turn t ≡ some effects
    → All (Traced t) (messages effects)
unfolding watch_turn
watch_turn-Traced t effects e = elim (Bool-cases (is_nil t.cfg.tracked_wallets)) [
  | inl idle ↦ let none_sent : effects ≡ [] = ground arith in rw none_sent tt
  | inr busy ↦
      then_effects-messages (Traced t) (tracking_notes t.net t.cfg.tracked_wallets) effects
        (watch_tracked t (tracked_of t.net t.cfg.tracked_wallets))
        (tracking_notes-quiet t.net t.cfg.tracked_wallets) (ground (arith, busy, e))
        (λ more watched. watch_tracked-Traced t more watched)
]
