-- ===== src/TreeMessage/Transactions/Sent.antt =====
-- The chunks of a transaction as they follow from what it holds, for any request.
use mathlib.Core.List.{map-append}
use world_wide_anthropomorph.Base.{
  ℕ, ◌<◌, ◌≤◌, ◌≡◌, refl, ap, ◌∙◌, Option, none, some, List, [], ◌∷◌, ◌++◌, map, All, length,
}
use world_wide_anthropomorph.Text.{bytes}
use world_wide_anthropomorph.TreeNode.{TreeNode, NewNodeVersion, SubTransaction, Transaction}
use world_wide_anthropomorph.TreeNode.TextForm.{long_values}
use world_wide_anthropomorph.TreeMessage.{
  ChunkList, retag, chunk_of, first_payload, encode_long_string, long_payloads,
}
use world_wide_anthropomorph.TreeMessage.Nodes.Sent.{NodeCodes, node_chunks}
use world_wide_anthropomorph.TreeMessage.Nodes.Coded.{
  nothing_chunks, node_chunks-IsCoded, nothing_chunks-IsCoded, maybe_node_codec,
}
use world_wide_anthropomorph.TreeMessage.Changes.{version_text}
use world_wide_anthropomorph.TreeMessage.Changes.Coded.{
  PriorFits, text_chunk, change_codec, change-IsCoded,
}
use world_wide_anthropomorph.TreeMessage.Codec.{IsCoded, AllCoded, none_coded, more_coded}
use world_wide_anthropomorph.TreeMessage.Codec.Vector.{size_chunk}
use world_wide_anthropomorph.TreeMessage.Transactions.Coded.{
  sub_transaction_codec, transaction_codec, sub_transaction-IsCoded, transaction-IsCoded,
}

retag-map :
    (id r s : ℕ) (ps : List (List ℕ))
    → map (retag id) (map (chunk_of r s) ps) ≡ map (chunk_of id s) ps
retag-map id r s [] = refl
retag-map id r s (p ∷ ps) = ap (λ cs. chunk_of id s p ∷ cs) (retag-map id r s ps)

module _ (data_chunks : TreeNode → List (List ℕ)) where
  -- What the encoding of an optional node, of a change and of a subtransaction can hold.
  abbrev pub MaybeCodes : Option TreeNode → Type 0
  MaybeCodes none = Unit
  MaybeCodes (some node) = NodeCodes data_chunks node

  pub record ChangeCodes (change : NewNodeVersion) : Type 0 where
    pub prior_fits : PriorFits change.prior
    pub label_fits : length (version_text change.prior change.label) ≤ first_payload
    pub node_codes : MaybeCodes change.node

  pub record SubCodes (sub : SubTransaction) : Type 0 where
    pub parent_codes : ChangeCodes sub.parent
    pub few_children : length sub.children < long_values
    pub children_code : All ChangeCodes sub.children

  module _ (s : ℕ) where
    abbrev pub maybe_chunks : ℕ → (o : Option TreeNode) → MaybeCodes o → ChunkList
    maybe_chunks r none c = nothing_chunks data_chunks r s
    maybe_chunks r (some node) c = node_chunks data_chunks r s node c

    abbrev change_chunks : ℕ → (change : NewNodeVersion) → ChangeCodes change → ChunkList
    change_chunks r change c =
        text_chunk r s (version_text change.prior change.label)
        ∷ maybe_chunks r change.node c.node_codes

    abbrev changes_chunks : ℕ → (xs : List NewNodeVersion) → All ChangeCodes xs → ChunkList
    changes_chunks r [] c = []
    changes_chunks r (x ∷ xs) (c, cs) = change_chunks r x c ++ changes_chunks r xs cs

    abbrev sub_chunks : ℕ → (sub : SubTransaction) → SubCodes sub → ChunkList
    sub_chunks r sub c =
        size_chunk r s (length sub.children)
        ∷ (change_chunks r sub.parent c.parent_codes
            ++ changes_chunks r sub.children c.children_code)

    abbrev subs_chunks : ℕ → (subs : Transaction) → All SubCodes subs → ChunkList
    subs_chunks r [] c = []
    subs_chunks r (x ∷ xs) (c, cs) = sub_chunks r x c ++ subs_chunks r xs cs

    abbrev pub transaction_chunks :
        ℕ → (transaction : Transaction) → All SubCodes transaction → ChunkList
    transaction_chunks r transaction c =
        size_chunk r s (length transaction) ∷ subs_chunks r transaction c

    pub maybe_chunks-IsCoded :
        (r : ℕ) (o : Option TreeNode) (c : MaybeCodes o)
        → IsCoded (maybe_node_codec data_chunks r s) o (maybe_chunks r o c)
    maybe_chunks-IsCoded r none c = nothing_chunks-IsCoded data_chunks r s
    maybe_chunks-IsCoded r (some node) c = node_chunks-IsCoded data_chunks r s node c

    change_chunks-IsCoded :
        (r : ℕ) (change : NewNodeVersion) (c : ChangeCodes change)
        → IsCoded (change_codec data_chunks r s) change (change_chunks r change c)
    change_chunks-IsCoded r change c =
        change-IsCoded data_chunks r s change (maybe_chunks r change.node c.node_codes) c.prior_fits
          c.label_fits (maybe_chunks-IsCoded r change.node c.node_codes)

    changes_chunks-AllCoded :
        (r : ℕ) (xs : List NewNodeVersion) (c : All ChangeCodes xs)
        → AllCoded (change_codec data_chunks r s) xs (changes_chunks r xs c)
    changes_chunks-AllCoded r [] c = none_coded
    changes_chunks-AllCoded r (x ∷ xs) (c, cs) =
        more_coded (change_chunks-IsCoded r x c) (changes_chunks-AllCoded r xs cs)

    subs_chunks-AllCoded :
        (r : ℕ) (subs : Transaction) (c : All SubCodes subs)
        → AllCoded (sub_transaction_codec data_chunks r s) subs (subs_chunks r subs c)
    subs_chunks-AllCoded r [] c = none_coded
    subs_chunks-AllCoded r (sub ∷ subs) (c, cs) =
        more_coded
          (sub_transaction-IsCoded data_chunks r s sub (change_chunks r sub.parent c.parent_codes)
            (changes_chunks r sub.children c.children_code) c.few_children
            (change_chunks-IsCoded r sub.parent c.parent_codes)
            (changes_chunks-AllCoded r sub.children c.children_code))
          (subs_chunks-AllCoded r subs cs)

    -- The chunks of a transaction whose parts fit their encodings are decoded to it whatever follows
    -- them, and their end is found with the last of them and not before.
    pub transaction_chunks-IsCoded :
        (r : ℕ) (transaction : Transaction) (c : All SubCodes transaction)
        → length transaction < long_values
        → IsCoded
            (transaction_codec data_chunks r s)
            transaction
            (transaction_chunks r transaction c)
    transaction_chunks-IsCoded r transaction c h =
        transaction-IsCoded data_chunks r s transaction (subs_chunks r transaction c) h
          (subs_chunks-AllCoded r transaction c)

    retag-maybe_chunks :
        (id r : ℕ) (o : Option TreeNode) (c : MaybeCodes o)
        → map (retag id) (maybe_chunks r o c) ≡ maybe_chunks id o c
    unfolding encode_long_string
    retag-maybe_chunks id r none c = retag-map id r s (long_payloads (bytes "Nothing"))
    retag-maybe_chunks id r (some node) c =
        map-append (retag id) (encode_long_string r s c.text)
          (map (chunk_of r s) (data_chunks node))
        ∙ ap (λ t. t ++ map (retag id) (map (chunk_of r s) (data_chunks node)))
            (retag-map id r s (long_payloads c.text))
        ∙ ap (λ t. encode_long_string id s c.text ++ t) (retag-map id r s (data_chunks node))

    retag-changes_chunks :
        (id r : ℕ) (xs : List NewNodeVersion) (c : All ChangeCodes xs)
        → map (retag id) (changes_chunks r xs c) ≡ changes_chunks id xs c
    retag-changes_chunks id r [] c = refl
    retag-changes_chunks id r (x ∷ xs) (c, cs) =
        map-append (retag id) (change_chunks r x c) (changes_chunks r xs cs)
        ∙ ap
            (λ t.
              (text_chunk id s (version_text x.prior x.label) ∷ t)
              ++ map (retag id) (changes_chunks r xs cs))
            (retag-maybe_chunks id r x.node c.node_codes)
        ∙ ap (λ t. change_chunks id x c ++ t) (retag-changes_chunks id r xs cs)

    retag-subs_chunks :
        (id r : ℕ) (subs : Transaction) (c : All SubCodes subs)
        → map (retag id) (subs_chunks r subs c) ≡ subs_chunks id subs c
    retag-subs_chunks id r [] c = refl
    retag-subs_chunks id r (x ∷ xs) (c, cs) =
        map-append (retag id) (sub_chunks r x c) (subs_chunks r xs cs)
        ∙ ap
            (λ t. (size_chunk id s (length x.children) ∷ t) ++ map (retag id) (subs_chunks r xs cs))
            (retag-changes_chunks id r (x.parent ∷ x.children) (c.parent_codes, c.children_code))
        ∙ ap (λ t. sub_chunks id x c ++ t) (retag-subs_chunks id r xs cs)

    -- Another request number in the chunks of a transaction gives its chunks for that request.
    pub retag-transaction_chunks :
        (id r : ℕ) (transaction : Transaction) (c : All SubCodes transaction)
        → map (retag id) (transaction_chunks r transaction c) ≡ transaction_chunks id transaction c
    retag-transaction_chunks id r transaction c =
        ap (λ t. size_chunk id s (length transaction) ∷ t) (retag-subs_chunks id r transaction c)
