-- ===== src/Tests/Sha256.antt =====
-- src/sha256.rs on the known vectors of its tests.
use tracescript.Prelude.{
  ◌≡◌, refl, codes, [], text_eq, true, List, ℕ, length, ◌+◌, ◌*◌, ◌%◌, ◌^◌, ◌++◌,
}
use tracescript.Sha256.{hash, hex_digest, new, update, finalize}
use tracescript.Sha256.Compress.{process_block, word_bytes, h0}
use tracescript.Sha256.Stream.{view, feed_all, IsValid, update-view}
use tracescript.Sha256.Padding.{padding, new-IsValid, hash_lem, finalize-update-update}

abc_digest :
    text_eq
      (hex_digest (hash (codes "abc")))
      (codes "ba7816bf8f01cfea414140de5dae2223b00361a396177a9cb410ff61f20015ad")
    ≡ true
unfolding hash hex_digest process_block text_eq
abc_digest = refl

abbrev first : List ℕ
first = codes "ab"

abbrev second : List ℕ
second = codes "c"

update-view_example :
    (view (update new first) ≡ feed_all (view new) first)
    × IsValid (update new first)
    × ((update new first).bit_count ≡ (new.bit_count + length first * 8) % 2 ^ 64)
update-view_example = update-view new first new-IsValid

hash_lem_example :
    hash first
    ≡ word_bytes (feed_all (h0, []) (first ++ padding (length first) (length first * 8 % 2 ^ 64))).0
hash_lem_example = hash_lem first

finalize-update-update_example :
    finalize (update (update new first) second) ≡ finalize (update new (first ++ second))
finalize-update-update_example = finalize-update-update new first second new-IsValid
