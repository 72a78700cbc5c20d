-- ===== src/Tests/Filters.antt =====
-- A small Bloom filter.
use moyuan_kv.Prelude.{All, ◌≡◌, true, [], ◌∷◌, arith}
use moyuan_kv.Bloom.{BloomFilter, init, insert_all, check}
use moyuan_kv.Bloom.Membership.{IsReady, init-IsReady, check-insert_all}

abbrev fresh : BloomFilter
fresh = init 70 (3 ∷ 7 ∷ [])

fresh-IsReady : IsReady fresh
fresh-IsReady = init-IsReady 70 (3 ∷ 7 ∷ []) (omega arith)

check-insert_all_example :
    All
      (λ s. check (insert_all fresh ((b'a' ∷ []) ∷ (b'b' ∷ []) ∷ [])) s ≡ true)
      ((b'a' ∷ []) ∷ (b'b' ∷ []) ∷ [])
check-insert_all_example = check-insert_all fresh ((b'a' ∷ []) ∷ (b'b' ∷ []) ∷ []) fresh-IsReady
