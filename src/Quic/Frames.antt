-- ===== src/Quic/Frames.antt =====
-- `crypto_fragments` and `assemble_crypto` of src/portwyrm/runtime/quic_router.py.
pub mod Reading
pub mod Assembly
use portwyrm.Prelude.{
  ℕ, zero, suc, ◌+◌, ◌-◌, ◌||◌, List, [], ◌∷◌, ◌++◌, slice, drop, length, leb, ltb, if◌then◌else◌,
  ◌==◌, nat_eq,
}
use portwyrm.Prelude.Result.{Result, ok, err, ◌>>=◌, ◌>>◌, guard}
use portwyrm.Prelude.Dict
use portwyrm.Prelude.Dict.{Dict}
use portwyrm.Quic.Bytes.{Bytes, Parsed, parse, fuel}
use portwyrm.Quic.Varint.{varint}

abbrev pub Fragments : Type 0
Fragments = Dict ℕ Bytes

-- The loop of `crypto_fragments`. Frame types 0 and 1 are PADDING and PING, 6 is CRYPTO; any other
-- type ends it. A round reads at least one byte.
pub frames_loop : ℕ → Bytes → ℕ → Fragments → Parsed Fragments
frames_loop zero plaintext offset fragments = err fuel
frames_loop (suc rounds) plaintext offset fragments =
    let body = do
      frame ← varint plaintext offset
      let skip = frames_loop rounds plaintext frame.1 fragments
      let crypto = do
        crypto_offset ← varint plaintext frame.1
        size ← varint plaintext crypto_offset.1
        guard (leb (size.1 + size.0) (length plaintext)) parse
        frames_loop rounds plaintext (size.1 + size.0)
            (Dict.put fragments crypto_offset.0 (slice plaintext size.1 (size.1 + size.0)))
      if frame.0 == 0 || frame.0 == 1 then skip else if frame.0 == 6 then crypto else ok fragments
    in if ltb offset (length plaintext) then body else ok fragments

pub crypto_fragments : Bytes → Parsed Fragments
crypto_fragments plaintext = frames_loop (suc (length plaintext)) plaintext 0 []

-- `sorted(fragments.items())`: the keys of a dict differ, so they decide the order.
pub insert_item : ℕ × Bytes → Fragments → Fragments
insert_item (o, f) [] = (o, f) ∷ []
insert_item (o, f) ((o', f') ∷ rest) =
    if leb o o' then (o, f) ∷ (o', f') ∷ rest else (o', f') ∷ insert_item (o, f) rest

pub sorted_items : Fragments → Fragments
sorted_items [] = []
sorted_items (item ∷ rest) = insert_item item (sorted_items rest)

-- The loop of `assemble_crypto`: a gap ends it, an overlap is skipped.
pub assemble_from : Bytes → Fragments → Bytes
assemble_from assembled [] = assembled
assemble_from assembled ((o, fragment) ∷ rest) =
    let overlap = length assembled - o in
    let extended =
      if ltb overlap (length fragment) then assembled ++ drop overlap fragment else assembled in
    let result = assemble_from extended rest in
    if ltb (length assembled) o then assembled else result

pub assemble_crypto : Fragments → Bytes
assemble_crypto fragments = assemble_from [] (sorted_items fragments)
