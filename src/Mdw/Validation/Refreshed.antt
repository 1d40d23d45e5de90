-- ===== src/Mdw/Validation/Refreshed.antt =====
-- A validation removes what is no longer on the chain, and tells the plugins of it.
use superhero_api.Base.{
  ℕ, zero, suc, ◌+◌, ◌-◌, Bool, true, false, ◌||◌, List, [], ◌∷◌, ◌≡◌, subst, ◌∙◌, arith, select,
  includes, All, Bool-cases, inl, inr, if-then, if-else,
}
use superhero_api.Base.Every.{All-every, All-map, All-zip}
use superhero_api.Mdw.Plugins.{
  Tx, Plugin, Hub, backward, for_plugins, notify_plugin_reorg, handle_reorg,
}
use superhero_api.Mdw.Validation.{
  Store, hashes, at_height, is_gone, is_kept, empty_block, remove_gone, process_kept,
  validate_block_transactions, validate_from, start_height, validate_and_refresh_blocks,
}
use superhero_api.Mdw.Validation.Removed.{
  validate_and_refresh_blocks-txs, keeps_at, gone, includes-hashes, validate_block-txs, keeps_from,
  keeps_step, keeps-stays, stays,
}
use superhero_api.Mdw.Validation.Told.{
  told, for_plugins-told, notify-told, process_batch-told, from-told,
}

-- Every plugin is told of a hash.
abbrev pub IsToldOf : List Plugin → ℕ → Hub → Type 0
IsToldOf ps hash s = All (λ (p : Plugin). told p.name hash s ≡ true) ps

notify-IsToldOf :
    (hash : ℕ) (hs : List ℕ) (ps : List Plugin) (s : Hub)
    → includes hash hs ≡ true
    → IsToldOf ps hash (for_plugins (notify_plugin_reorg hs) ps s)
notify-IsToldOf hash hs [] s e = tt
notify-IsToldOf hash hs (p ∷ ps) s e = (
  for_plugins-told p.name hash (notify_plugin_reorg hs) (notify-told p.name hash hs) ps
      (notify_plugin_reorg hs p s) (ground arith),
  notify-IsToldOf hash hs ps (notify_plugin_reorg hs p s) e,
)

handle_reorg-IsToldOf :
    (hash : ℕ) (hs : List ℕ) (ps : List Plugin) (s : Hub)
    → includes hash hs ≡ true
    → IsToldOf ps hash (handle_reorg ps hs s)
unfolding handle_reorg
handle_reorg-IsToldOf hash [] ps s e = cc
handle_reorg-IsToldOf hash (x ∷ hs) ps s e = notify-IsToldOf hash (x ∷ hs) ps s e

empty_block-IsToldOf :
    (ps : List Plugin) (height hash : ℕ) (found : List Tx) (s : Store)
    → includes hash (hashes found) ≡ true
    → IsToldOf ps hash (empty_block ps height found s).hub
empty_block-IsToldOf ps height hash [] s e = cc
empty_block-IsToldOf ps height hash (t ∷ ts) s e =
    handle_reorg-IsToldOf hash (hashes (t ∷ ts)) ps s.hub e

gone-IsToldOf :
    (ps : List Plugin) (height hash : ℕ) (refetched hs : List ℕ) (s : Store)
    → includes hash hs ≡ true
    → IsToldOf ps hash (process_kept ps height refetched (remove_gone ps height hs s)).hub
gone-IsToldOf ps height hash refetched [] s e = cc
gone-IsToldOf ps height hash refetched (x ∷ hs) s e =
    All-map (λ p. told p.name hash (handle_reorg ps (x ∷ hs) s.hub) ≡ true)
      (λ p.
        told p.name hash (process_kept ps height refetched (remove_gone ps height (x ∷ hs) s)).hub
        ≡ true)
      (λ p h.
        process_batch-told p.name hash ps
          (select (is_kept height refetched) (remove_gone ps height (x ∷ hs) s).txs) backward
          (handle_reorg ps (x ∷ hs) s.hub) h)
      ps (handle_reorg-IsToldOf hash (x ∷ hs) ps s.hub e)

block-IsToldOf :
    (ps : List Plugin) (height : ℕ) (refetched : List ℕ) (s : Store)
    → All
        (λ x.
          keeps_at height refetched x ≡ false
          → IsToldOf ps x.hash (validate_block_transactions ps height refetched s).hub)
        s.txs
unfolding validate_block_transactions
block-IsToldOf ps height [] s =
    All-map
      (λ x.
        at_height height x ≡ true
        → includes x.hash (hashes (select (at_height height) s.txs)) ≡ true)
      (λ x.
        keeps_at height [] x ≡ false
        → IsToldOf ps x.hash (empty_block ps height (select (at_height height) s.txs) s).hub)
      (λ x k e.
        empty_block-IsToldOf ps height x.hash (select (at_height height) s.txs) s
          (k (ground arith)))
      s.txs (includes-hashes (at_height height) s.txs)
block-IsToldOf ps height (r ∷ rs) s =
    All-map
      (λ x. is_gone height (r ∷ rs) x ≡ true → includes x.hash (gone height (r ∷ rs) s.txs) ≡ true)
      (λ x.
        keeps_at height (r ∷ rs) x ≡ false
        → IsToldOf ps x.hash
            (process_kept ps height (r ∷ rs)
              (remove_gone ps height (gone height (r ∷ rs) s.txs) s)).hub)
      (λ x k e.
        gone-IsToldOf ps height x.hash (r ∷ rs) (gone height (r ∷ rs) s.txs) s (k (ground arith)))
      s.txs (includes-hashes (is_gone height (r ∷ rs)) s.txs)

All-unselect :
    (P : Tx → Type 0) (q : Tx → Bool) (xs : List Tx)
    → All P (select q xs)
    → All (λ x. q x ≡ true → P x) xs
All-unselect P q [] h = tt
All-unselect P q (x ∷ xs) h = elim (Bool-cases (q x)) [
  | inl hit ↦
      let both : P x × All P (select q xs) =
        subst (All P) (if-then (x ∷ select q xs) (select q xs) hit) h in
      (λ e. both.0, All-unselect P q xs both.1)
  | inr miss ↦ (
    λ e. absurd (ground arith),
    All-unselect P q xs (subst (All P) (if-else (x ∷ select q xs) (select q xs) miss) h),
  )
]

from-IsToldOf :
    (ps : List Plugin) (fetched : ℕ → List ℕ) (n height : ℕ) (s : Store)
    → All
        (λ x.
          keeps_from fetched n height x ≡ false
          → IsToldOf ps x.hash (validate_from ps fetched n height s).hub)
        s.txs
from-IsToldOf ps fetched zero height s =
    All-every (λ x. keeps_from fetched 0 height x ≡ false → IsToldOf ps x.hash s.hub)
      (λ x e. absurd (ground arith)) s.txs
from-IsToldOf ps fetched (suc n) height s =
    let next = validate_block_transactions ps height (fetched height) s in
    All-zip (λ x. keeps_at height (fetched height) x ≡ false → IsToldOf ps x.hash next.hub)
      (λ x.
        keeps_at height (fetched height) x ≡ true
        → keeps_from fetched n (height + 1) x ≡ false
        → IsToldOf ps x.hash (validate_from ps fetched n (height + 1) next).hub)
      (λ x.
        keeps_from fetched (suc n) height x ≡ false
        → IsToldOf ps x.hash (validate_from ps fetched n (height + 1) next).hub)
      (λ x now later e. elim (Bool-cases (keeps_at height (fetched height) x)) [
        | inl kept ↦ later kept (ground (arith, keeps_step fetched n height x))
        | inr gone ↦
            All-map (λ p. told p.name x.hash next.hub ≡ true)
              (λ p. told p.name x.hash (validate_from ps fetched n (height + 1) next).hub ≡ true)
              (λ p h. from-told p.name x.hash ps fetched n (height + 1) next h) ps (now gone)
      ])
      s.txs (block-IsToldOf ps height (fetched height) s)
      (All-unselect
        (λ x.
          keeps_from fetched n (height + 1) x ≡ false
          → IsToldOf ps x.hash (validate_from ps fetched n (height + 1) next).hub)
        (keeps_at height (fetched height)) s.txs
        (subst
          (All (λ x.
            keeps_from fetched n (height + 1) x ≡ false
            → IsToldOf ps x.hash (validate_from ps fetched n (height + 1) next).hub))
          (validate_block-txs ps height (fetched height) s)
          (from-IsToldOf ps fetched n (height + 1) next)))

-- A transaction stays, or every plugin is told of it.
abbrev pub IsReported : List Plugin → (Tx → Bool) → Hub → Tx → Type 0
IsReported ps stay hub x = All (λ (p : Plugin). (stay x || told p.name x.hash hub) ≡ true) ps

reported :
    (ps : List Plugin) (stay : Tx → Bool) (hub : Hub) (x : Tx)
    → (stay x ≡ false → IsToldOf ps x.hash hub)
    → IsReported ps stay hub x
reported ps stay hub x h = elim (Bool-cases (stay x)) [
  | inl kept ↦ All-every (λ p. (stay x || told p.name x.hash hub) ≡ true) (λ p. ground arith) ps
  | inr gone ↦
      All-map (λ p. told p.name x.hash hub ≡ true) (λ p. (stay x || told p.name x.hash hub) ≡ true)
        (λ p k. ground arith) ps (h gone)
]

-- Whatever was fetched: of the stored transactions there stay, in order, those of heights outside the
-- validated range and those whose hash was fetched again at their height, and every plugin has been
-- told of the hash of each other one.
pub validate_and_refresh_blocks-IsReported :
    (ps : List Plugin) (depth tip : ℕ) (fetched : ℕ → List ℕ) (s : Store)
    → ((validate_and_refresh_blocks ps depth tip fetched s).txs
        ≡ select (stays (start_height depth tip) tip fetched) s.txs)
      × All
          (IsReported ps
            (stays (start_height depth tip) tip fetched)
            (validate_and_refresh_blocks ps depth tip fetched s).hub)
          s.txs
unfolding validate_and_refresh_blocks
validate_and_refresh_blocks-IsReported ps depth tip fetched s =
    let first = start_height depth tip in
    let hub = (validate_from ps fetched (tip + 1 - first) first s).hub in
    (
      validate_and_refresh_blocks-txs ps depth tip fetched s,
      All-map (λ x. keeps_from fetched (tip + 1 - first) first x ≡ false → IsToldOf ps x.hash hub)
          (IsReported ps (stays first tip fetched) hub)
          (λ x k.
            reported ps (stays first tip fetched) hub x
              (λ e. k (keeps-stays depth tip fetched x ∙ e)))
          s.txs (from-IsToldOf ps fetched (tip + 1 - first) first s),
    )
