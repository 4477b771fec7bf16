-- ===== src/Tests/Chunks.antt =====
-- Chunks of a small file, with a plain function for the hash.
use lan_link.Prelude.{ℕ, ◌+◌, ◌≡◌, refl, List, [], ◌∷◌, arith, ℕ_discrete}
use lan_link.Prelude.Bytes.{both_eq, bytes_eq}
use lan_link.Prelude.Result.{ok}
use lan_link.Storage.Chunk.{
  Hash, Chunker, chunk_loop, num_chunks, chunk_data, sizes_match, concat, reassemble,
}
use lan_link.Storage.Chunk.Reassembly.{reassemble-chunk_data}

program : Unit {0}
unfolding chunk_loop num_chunks chunk_data sizes_match concat reassemble both_eq bytes_eq ℕ_discrete
program = tt

abbrev total : List ℕ → ℕ
total [] = 0
total (b ∷ bs) = b + total bs

-- The sum of the bytes.
abbrev sum : List ℕ → Hash
sum bytes = total bytes ∷ []

abbrev chunker : Chunker
chunker = record { chunk_size = 2 }

abbrev file : List ℕ
file = 1 ∷ 2 ∷ 3 ∷ 4 ∷ 5 ∷ []

cut : (chunk_data sum chunker file).1 ≡ (1 ∷ 2 ∷ []) ∷ (3 ∷ 4 ∷ []) ∷ (5 ∷ []) ∷ []
unfolding program
cut = refl

reassemble-chunk_data_example :
    reassemble sum (chunk_data sum chunker file).0 (chunk_data sum chunker file).1 ≡ ok file
reassemble-chunk_data_example = reassemble-chunk_data sum chunker file (omega arith)

-- The second and the third byte are exchanged, which this hash does not notice.
abbrev pieces : List (List ℕ)
pieces = (1 ∷ 3 ∷ []) ∷ (2 ∷ 4 ∷ []) ∷ (5 ∷ []) ∷ []
