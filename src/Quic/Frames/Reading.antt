-- ===== src/Quic/Frames/Reading.antt =====
-- `crypto_fragments` of src/portwyrm/runtime/quic_router.py: its errors, and the CRYPTO frames of an
-- encoded plaintext.
use portwyrm.Prelude.{
  ℕ, zero, suc, ◌+◌, ◌<◌, ◌≤◌, ◌^◌, ◌≡◌, ◌∙◌, ◌||◌, ap, arith, List, [], ◌∷◌, ◌++◌, length, leb,
  ltb, if◌then◌else◌, ◌==◌, nat_eq, Bool-cases, inl, inr, Bool, true, false, length-append, All,
}
use mathlib.Core.List.{append_assoc}
use mathlib.Core.Path.{subst}
use portwyrm.Prelude.Result.{ok}
use portwyrm.Prelude.Dict
use portwyrm.Quic.Bytes.{Bytes, Parsed}
use portwyrm.Quic.Raises.{OnlyParse, OnlyParse-bind, OnlyParse-guard, OnlyParse-varint}
use portwyrm.Quic.Varint.{varint, varint_bounds}
use portwyrm.Quic.Varint.RoundTrip.{encode_varint}
use portwyrm.Quic.Cursor.{At, At-start, At-length, At-advance, At-slice, At-varint}
use portwyrm.Quic.Frames.{Fragments, frames_loop, crypto_fragments}

OnlyParse-if :
    {A : Type 0} (b : Bool) (m n : Parsed A)
    → OnlyParse m
    → OnlyParse n
    → OnlyParse (if b then m else n)
OnlyParse-if true m n h k = h
OnlyParse-if false m n h k = k

OnlyParse-frames_loop :
    (rounds : ℕ) (plaintext : Bytes) (offset : ℕ) (fragments : Fragments)
    → length plaintext < rounds + offset
    → 0 < rounds
    → OnlyParse (frames_loop rounds plaintext offset fragments)
unfolding frames_loop
OnlyParse-frames_loop zero plaintext offset fragments h k = absurd (omega arith)
OnlyParse-frames_loop (suc rounds) plaintext offset fragments h k =
    elim (Bool-cases (ltb offset (length plaintext))) [
      | inr end ↦ rw end tt
      | inl more ↦ rw more (
          OnlyParse-bind (varint plaintext offset) _ (OnlyParse-varint plaintext offset) λ frame e.
            let b = varint_bounds plaintext offset e in
            OnlyParse-if (frame.0 == 0 || frame.0 == 1) _ _
              (OnlyParse-frames_loop rounds plaintext frame.1 fragments (omega arith)
                (ground arith))
              (OnlyParse-if (frame.0 == 6) _ (ok fragments)
                (OnlyParse-bind (varint plaintext frame.1) _ (OnlyParse-varint plaintext frame.1)
                  λ o e'.
                    let b' = varint_bounds plaintext frame.1 e' in
                    OnlyParse-bind (varint plaintext o.1) _ (OnlyParse-varint plaintext o.1)
                      λ n e''.
                        let b'' = varint_bounds plaintext o.1 e'' in
                        OnlyParse-guard (leb (n.1 + n.0) (length plaintext)) _ λ fits.
                          OnlyParse-frames_loop rounds plaintext (n.1 + n.0) _ (omega arith)
                            (ground arith))
                tt))
    ]

-- Reading the frames of any plaintext ends, with the fragments or with a `QuicParseError`: no read
-- is out of range, and the rounds given are enough.
pub OnlyParse-crypto_fragments : (plaintext : Bytes) → OnlyParse (crypto_fragments plaintext)
unfolding crypto_fragments
OnlyParse-crypto_fragments plaintext =
    OnlyParse-frames_loop (suc (length plaintext)) plaintext 0 [] (omega arith) (omega arith)

-- The frames of RFC 9000 that an Initial packet of a client begins with.
pub data Frame : Type 0 where
  padding ping : Frame
  crypto : ℕ → Bytes → Frame

unfoldable pub encode_frame : Frame → Bytes
encode_frame padding = 0 ∷ []
encode_frame ping = 1 ∷ []
encode_frame (crypto o f) = 6 ∷ (encode_varint o ++ (encode_varint (length f) ++ f))

unfoldable pub encode_frames : List Frame → Bytes
unfolding encode_frame
encode_frames [] = []
encode_frames (frame ∷ frames) = encode_frame frame ++ encode_frames frames

-- The dict of the CRYPTO frames, the later of two at one offset kept.
unfoldable pub collect : Fragments → List Frame → Fragments
collect fragments [] = fragments
collect fragments (crypto o f ∷ frames) = collect (Dict.put fragments o f) frames
collect fragments (_ ∷ frames) = collect fragments frames

-- Offset and length are what a variable-length integer can hold.
abbrev pub IsEncodable : Frame → Type 0
IsEncodable (crypto o f) = (o < 2 ^ 62) × (length f < 2 ^ 62)
IsEncodable _ = Unit

one_frame : (v : ℕ) → v < 64 → encode_varint v ≡ v ∷ []
unfolding encode_varint
one_frame v h = ground arith

module _ (rounds : ℕ) (plaintext : Bytes) (p : ℕ) (fragments : Fragments) (rest : Bytes) where
  -- A frame of one byte is passed over.
  skip_round :
      (kind : ℕ)
      → kind < 2
      → At plaintext p (encode_varint kind ++ rest)
      → frames_loop (suc rounds) plaintext p fragments
        ≡ frames_loop rounds plaintext (p + length (encode_varint kind)) fragments
  unfolding frames_loop
  skip_round kind small here =
      let size = At-length plaintext p (encode_varint kind ++ rest) here in
      let one = ap length (one_frame kind (omega arith)) in
      let joined = length-append (encode_varint kind) rest in
      let more : ltb p (length plaintext) ≡ true = ground arith in
      rw (more, At-varint plaintext p kind rest (omega arith) here) (ground arith)

  crypto_round :
      (o : ℕ) (f : Bytes)
      → IsEncodable (crypto o f)
      → (here : At plaintext p
          (encode_varint 6 ++ (encode_varint o ++ (encode_varint (length f) ++ (f ++ rest)))))
      → (next : ℕ) × (frames_loop (suc rounds) plaintext p fragments
          ≡ frames_loop rounds plaintext next (Dict.put fragments o f))
        × At plaintext next rest
  unfolding frames_loop
  crypto_round o f fits here =
      let bytes =
        encode_varint 6 ++ (encode_varint o ++ (encode_varint (length f) ++ (f ++ rest))) in
      let at_o = At-advance plaintext p (encode_varint 6) _ here in
      let p_o = p + length (encode_varint 6) in
      let at_n = At-advance plaintext p_o (encode_varint o) _ at_o in
      let p_n = p_o + length (encode_varint o) in
      let at_f = At-advance plaintext p_n (encode_varint (length f)) _ at_n in
      let p_f = p_n + length (encode_varint (length f)) in
      let at_rest = At-advance plaintext p_f f rest at_f in
      let more : ltb p (length plaintext) ≡ true =
        let size = At-length plaintext p_f (f ++ rest) at_f in
        let one = ap length (one_frame 6 (omega arith)) in ground arith in
      let inside : leb (p_f + length f) (length plaintext) ≡ true =
        let size = At-length plaintext (p_f + length f) rest at_rest in ground arith in
      (
        p_f + length f,
        rw (
          more,
          At-varint plaintext p 6 _ (omega arith) here,
          At-varint plaintext p_o o _ fits.0 at_o,
          At-varint plaintext p_n (length f) _ fits.1 at_n,
          inside,
          At-slice plaintext p_f f rest at_f,
        ),
        at_rest,
      )

-- `At` at an equal list of bytes.
At-eq :
    (plaintext : Bytes) (p : ℕ) (xs ys : Bytes) → xs ≡ ys → At plaintext p xs → At plaintext p ys
At-eq plaintext p xs ys e h = subst (At plaintext p) e h

crypto_layout :
    (o : ℕ) (f rest : Bytes)
    → encode_frame (crypto o f) ++ rest
      ≡ encode_varint 6 ++ (encode_varint o ++ (encode_varint (length f) ++ (f ++ rest)))
unfolding encode_frame
crypto_layout o f rest = rw (one_frame 6 (omega arith)) (simp append_assoc)

frames_loop-encode_frames :
    (frames : List Frame) (rounds : ℕ) (plaintext : Bytes) (p : ℕ) (fragments : Fragments)
    → All IsEncodable frames
    → length frames < rounds
    → At plaintext p (encode_frames frames)
    → frames_loop rounds plaintext p fragments ≡ ok (collect fragments frames)
unfolding collect encode_frames frames_loop
frames_loop-encode_frames frames zero plaintext p fragments fits room here = absurd (omega arith)
frames_loop-encode_frames [] (suc rounds) plaintext p fragments fits room here =
    let size = At-length plaintext p [] here in
    let end : ltb p (length plaintext) ≡ false = ground arith in rw (frames_loop, end)
frames_loop-encode_frames (padding ∷ frames) (suc rounds) plaintext p fragments fits room here =
    let bytes =
      At-eq plaintext p _ (encode_varint 0 ++ encode_frames frames) (rw (one_frame 0 (omega arith)))
        here in
    skip_round rounds plaintext p fragments (encode_frames frames) 0 (omega arith) bytes
    ∙ frames_loop-encode_frames frames rounds plaintext _ fragments fits.1 (omega arith)
        (At-advance plaintext p (encode_varint 0) _ bytes)
frames_loop-encode_frames (ping ∷ frames) (suc rounds) plaintext p fragments fits room here =
    let bytes =
      At-eq plaintext p _ (encode_varint 1 ++ encode_frames frames) (rw (one_frame 1 (omega arith)))
        here in
    skip_round rounds plaintext p fragments (encode_frames frames) 1 (omega arith) bytes
    ∙ frames_loop-encode_frames frames rounds plaintext _ fragments fits.1 (omega arith)
        (At-advance plaintext p (encode_varint 1) _ bytes)
frames_loop-encode_frames (crypto o f ∷ frames) (suc rounds) plaintext p fragments fits room here =
    let bytes = At-eq plaintext p _ _ (crypto_layout o f (encode_frames frames)) here in
    let (next, same, after) =
      crypto_round rounds plaintext p fragments (encode_frames frames) o f fits.0 bytes in
    same
    ∙ frames_loop-encode_frames frames rounds plaintext next (Dict.put fragments o f) fits.1
        (omega arith) after

length-encode_frames : (frames : List Frame) → length frames ≤ length (encode_frames frames)
unfolding encode_frames
length-encode_frames [] = omega arith
length-encode_frames (padding ∷ frames) = omega (arith, length-encode_frames frames)
length-encode_frames (ping ∷ frames) = omega (arith, length-encode_frames frames)
length-encode_frames (crypto o f ∷ frames) = omega (
  arith,
  length-encode_frames frames,
  length-append (encode_varint o ++ (encode_varint (length f) ++ f)) (encode_frames frames),
)

-- Reading back an encoded sequence of PADDING, PING and CRYPTO frames gives the dict of the CRYPTO
-- frames, whenever their offsets and lengths are below 2 ^ 62.
pub crypto_fragments-encode_frames :
    (frames : List Frame)
    → All IsEncodable frames
    → crypto_fragments (encode_frames frames) ≡ ok (collect [] frames)
unfolding crypto_fragments
crypto_fragments-encode_frames frames fits =
    frames_loop-encode_frames frames (suc (length (encode_frames frames))) (encode_frames frames) 0
      [] fits (omega (arith, length-encode_frames frames)) (At-start (encode_frames frames))
