-- ===== src/TreeMessage/Transactions/Coded.antt =====
-- The chunks of a transaction are coded, where those of its changes are.
use mathlib.Core.List.{append_assoc}
use world_wide_anthropomorph.Base.{
  ℕ, zero, suc, ◌+◌, ◌<◌, ◌≡◌, refl, ap, sym, ◌∙◌, false, none, some, List, [], ◌∷◌, ◌++◌, arith,
  length, take, length-append, drop-append, ◌==◌, ok,
}
use world_wide_anthropomorph.Stream.{to_string}
use world_wide_anthropomorph.TreeNode.{TreeNode, NewNodeVersion, SubTransaction, Transaction}
use world_wide_anthropomorph.TreeNode.TextForm.{long_values}
use world_wide_anthropomorph.TreeMessage.{PayloadChunk, ChunkList}
use world_wide_anthropomorph.TreeMessage.Vectors.{decode_all, can_decode_all}
use world_wide_anthropomorph.TreeMessage.Changes.{
  decode_new_node_version, can_decode_new_node_version,
}
use world_wide_anthropomorph.TreeMessage.Changes.Coded.{change_codec}
use world_wide_anthropomorph.TreeMessage.Codec.{
  Codec, chunk_of-IsTagged, IsTagged-AllCoded, IsCoded, AllCoded, more_coded, positive_nonzero,
  encode_all-AllCoded, decode_all-AllCoded, can_decode_all-AllCoded, can_decode_all-take,
}
use world_wide_anthropomorph.TreeMessage.Codec.Vector.{
  size_chunk, encode_size, decode_size_chunk, can_decode_label-chunk_of, can_decode_label-missing,
  vector_codec-IsCoded,
}
use world_wide_anthropomorph.TreeMessage.Transactions.{
  encode_sub_transaction, decode_sub_transaction, can_decode_sub_transaction, encode_transaction,
  decode_transaction, can_decode_transaction,
}

module _ (data_chunks : TreeNode → List (List ℕ)) (r s : ℕ) where
  abbrev changes : Codec NewNodeVersion
  changes = change_codec data_chunks r s

  abbrev pub sub_transaction_codec : Codec SubTransaction
  sub_transaction_codec = record {
    request_id = r;
    signal = s;
    encode = encode_sub_transaction data_chunks r s;
    decode = decode_sub_transaction;
    can_decode = can_decode_sub_transaction;
  }

  -- After its first chunk a subtransaction is looked for as the list of all of its changes.
  after_sub_size :
      (n : ℕ) (before rest : ChunkList)
      → n < long_values
      → can_decode_sub_transaction (length before) (before ++ (size_chunk r s n ∷ rest))
        ≡ can_decode_all can_decode_new_node_version
            (suc n)
            (length (before ++ size_chunk r s n ∷ []))
            ((before ++ size_chunk r s n ∷ []) ++ rest)
  unfolding can_decode_sub_transaction can_decode_all
  after_sub_size n before rest h =
      rw
        (
          can_decode_sub_transaction,
          can_decode_label-chunk_of r s (to_string n) before rest,
          drop-append before (size_chunk r s n ∷ rest),
          decode_size_chunk r s n rest h,
        )
        refl
      ∙ ap
          (λ k.
            can_decode_all can_decode_new_node_version (suc n) k
              (before ++ (size_chunk r s n ∷ rest)))
          (sym (length-append before (size_chunk r s n ∷ [])))
      ∙ ap
          (can_decode_all can_decode_new_node_version (suc n)
            (length (before ++ size_chunk r s n ∷ [])))
          (sym (append_assoc before (size_chunk r s n ∷ []) rest))

  awaited_sub :
      (sub : SubTransaction) (rest before : ChunkList) (k : ℕ)
      → length sub.children < long_values
      → AllCoded changes (sub.parent ∷ sub.children) rest
      → length before + suc (length rest) < long_values
      → k < suc (length rest)
      → can_decode_sub_transaction
          (length before)
          (before ++ take k (size_chunk r s (length sub.children) ∷ rest))
        ≡ ok none
  unfolding can_decode_sub_transaction
  awaited_sub sub rest before zero h hs fits less =
      rw (can_decode_sub_transaction, can_decode_label-missing before) refl
  awaited_sub sub rest before (suc k) h hs fits less =
      let first : ChunkList = before ++ size_chunk r s (length sub.children) ∷ [] in
      let size : length first ≡ length before + 1 =
        length-append before (size_chunk r s (length sub.children) ∷ []) in
      after_sub_size (length sub.children) before (take k rest) h
      ∙ can_decode_all-take changes (sub.parent ∷ sub.children) rest first k hs
          (omega (arith, fits, size)) (omega (arith, less))

  found_sub :
      (sub : SubTransaction) (rest before after : ChunkList)
      → length sub.children < long_values
      → AllCoded changes (sub.parent ∷ sub.children) rest
      → length before + suc (length rest) < long_values
      → can_decode_sub_transaction
          (length before)
          (before ++ (size_chunk r s (length sub.children) ∷ (rest ++ after)))
        ≡ ok (some (length before + suc (length rest)))
  found_sub sub rest before after h hs fits =
      let first : ChunkList = before ++ size_chunk r s (length sub.children) ∷ [] in
      let size : length first ≡ length before + 1 =
        length-append before (size_chunk r s (length sub.children) ∷ []) in
      after_sub_size (length sub.children) before (rest ++ after) h
      ∙ can_decode_all-AllCoded changes (sub.parent ∷ sub.children) rest first after hs
          (omega (arith, fits, size))
      ∙ ap (λ n. ok (some n)) (omega (arith, size))

  decoded_sub :
      (sub : SubTransaction) (parent rest after : ChunkList)
      → length sub.children < long_values
      → IsCoded changes sub.parent parent
      → AllCoded changes sub.children rest
      → decode_sub_transaction (size_chunk r s (length sub.children) ∷ ((parent ++ rest) ++ after))
        ≡ ok (suc (length (parent ++ rest)), sub)
  unfolding decode_sub_transaction
  decoded_sub sub parent rest after h p hs =
      let n : ℕ = length sub.children in
      let size : PayloadChunk = size_chunk r s n in
      let tail : ChunkList = rest ++ after in
      let nonzero : (length parent == 0) ≡ false = positive_nonzero (length parent) p.filled in
      let later : decode_all decode_new_node_version n (length parent + 1) (size ∷ (parent ++ tail))
          ≡ ok (suc (length (parent ++ rest)), sub.children) =
        ap (λ k. decode_all decode_new_node_version n k (size ∷ (parent ++ tail))) (omega arith)
        ∙ decode_all-AllCoded changes sub.children rest (size ∷ parent) after hs
        ∙ ap (λ k. ok (k, sub.children)) (omega (arith, length-append parent rest)) in
      ap (λ t. decode_sub_transaction (size ∷ t)) (append_assoc parent rest after)
      ∙ rw
          (
            decode_sub_transaction,
            can_decode_label-chunk_of r s (to_string n) [] (parent ++ tail),
            decode_size_chunk r s n (parent ++ tail) h,
            p.decoded tail,
            nonzero,
            later,
          )
          refl

  -- The chunks of a subtransaction are coded, where those of its changes are.
  pub sub_transaction-IsCoded :
      (sub : SubTransaction) (parent rest : ChunkList)
      → length sub.children < long_values
      → IsCoded changes sub.parent parent
      → AllCoded changes sub.children rest
      → IsCoded sub_transaction_codec sub (size_chunk r s (length sub.children) ∷ (parent ++ rest))
  unfolding encode_sub_transaction
  sub_transaction-IsCoded sub parent rest h p hs =
      let all : AllCoded changes (sub.parent ∷ sub.children) (parent ++ rest) = more_coded p hs in
      record {
        filled = omega arith;
        tagged = (
          chunk_of-IsTagged r s (to_string (length sub.children)),
          IsTagged-AllCoded changes (sub.parent ∷ sub.children) (parent ++ rest) all,
        );
        encoded =
            rw
              (
                encode_sub_transaction,
                encode_size r s (length sub.children) h,
                p.encoded,
                encode_all-AllCoded changes sub.children rest hs,
              )
              refl;
        decoded = λ after. decoded_sub sub parent rest after h p hs;
        found = λ before after fits. found_sub sub (parent ++ rest) before after h all fits;
        awaited = λ before k fits less. awaited_sub sub (parent ++ rest) before k h all fits less;
      }

  abbrev pub transaction_codec : Codec Transaction
  transaction_codec = record {
    request_id = r;
    signal = s;
    encode = encode_transaction data_chunks r s;
    decode = decode_transaction;
    can_decode = can_decode_transaction;
  }

  -- The chunks of a transaction are coded, where those of its subtransactions are: they are decoded
  -- to the transaction whatever follows them, and the end is found with the last of them and not
  -- before.
  pub transaction-IsCoded :
      (transaction : Transaction) (rest : ChunkList)
      → length transaction < long_values
      → AllCoded sub_transaction_codec transaction rest
      → IsCoded transaction_codec transaction (size_chunk r s (length transaction) ∷ rest)
  unfolding encode_transaction decode_transaction can_decode_transaction
  transaction-IsCoded transaction rest h hs =
      vector_codec-IsCoded sub_transaction_codec transaction rest h hs
