-- ===== src/Mux.antt =====
-- crates/protocol/src/stream.rs: the streams of a connection.
use mathlib.Core.Option
use lan_link.Prelude.{
  ℕ, zero, suc, ◌-◌, ◌≡◌, refl, ◌↔◌, ◌⊎◌, min, List, [], ◌∷◌, Bool, true, false, Option, arith,
  ℕ_discrete,
}
use lan_link.Prelude.Words.{u32_mod, saturating_add_u32}
use lan_link.Prelude.Assoc
use lan_link.Frame.Types.{stream_id_from_u16, is_reliable}

pub record MuxStream : Type 0 where
  pub id : ℕ
  pub reliable : Bool
  pub send_seq : ℕ

unfoldable pub new_stream : ℕ → MuxStream
new_stream id = record {
  id = id;
  reliable = Option.get_or (Option.map is_reliable (stream_id_from_u16 id)) false;
  send_seq = 0;
}

-- The stream after it, and the sequence number.
unfoldable pub next_seq : MuxStream → MuxStream × ℕ
next_seq m = (record m { send_seq = saturating_add_u32 m.send_seq 1 }, m.send_seq)

abbrev pub StreamMux : Type 0
StreamMux = List (ℕ × MuxStream)

insert_streams : List ℕ → StreamMux → StreamMux
insert_streams [] streams = streams
insert_streams (id ∷ ids) streams =
    insert_streams ids (Assoc.insert ℕ_discrete id (new_stream id) streams)

unfoldable pub new : StreamMux
unfolding insert_streams
new = insert_streams (0 ∷ 1 ∷ 2 ∷ 3 ∷ 4 ∷ 5 ∷ []) []

unfoldable pub get : StreamMux → ℕ → Option MuxStream
get mux id = Assoc.lookup ℕ_discrete id mux

-- The sequence numbers of the next `n` packets of a stream.
unfoldable pub numbers : ℕ → MuxStream → List ℕ
numbers zero m = []
numbers (suc n) m = let (m', seq) = next_seq m in seq ∷ numbers n m'

-- What the `n` packets should be numbered, with u32::MAX repeated once it is reached.
unfoldable pub counted : ℕ → ℕ → List ℕ
counted zero s = []
counted (suc n) s = min s (u32_mod - 1) ∷ counted n (suc s)

numbers_from :
    (n s : ℕ) (m : MuxStream) → m.send_seq ≡ min s (u32_mod - 1) → numbers n m ≡ counted n s
unfolding numbers counted next_seq
numbers_from zero s m e = refl
numbers_from (suc n) s m e = ground (arith, numbers_from n (suc s) (next_seq m).0)

-- A new stream is reliable exactly for the ids of control, input and file, and numbers its packets
-- 0, 1, 2, … up to 2 ^ 32 - 1, where it stays.
pub new_stream_lem :
    (id n : ℕ)
    → (((new_stream id).reliable ≡ true) ↔ ((id ≡ 0) ⊎ (id ≡ 4) ⊎ (id ≡ 5)))
      × (numbers n (new_stream id) ≡ counted n 0)
unfolding new_stream is_reliable stream_id_from_u16
new_stream_lem id n = (ground arith, numbers_from n 0 (new_stream id) (omega arith))
