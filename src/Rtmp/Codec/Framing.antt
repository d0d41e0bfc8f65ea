-- ===== src/Rtmp/Codec/Framing.antt =====
-- `decode` and bytes that arrive later; chunks without a type of their own.
use oxide_cast.Prelude.{
  take-append_le, drop-append_le, if◌then◌else◌, Bool, true, false, ℕ, zero, suc, ◌+◌, ◌/◌, ◌%◌,
  ◌≡◌, ◌≢◌, inl, inr, refl, none, ok, err, List, [], ◌∷◌, ◌++◌, length, drop, arith, length-drop,
  Bool-cases, Result-cases, ltb, leb, Result, ◌==◌, ◌>>=◌, ap, length-append,
}
use oxide_cast.Rtmp.Codec.{
  RtmpCodec, Stop, need_more, invalid_format, out_of_bounds, byte_at, basic_header, be24, le32,
  be32, MessageHeader, message_header, extended_timestamp, payload_size, frame, cut, decode,
  at_least,
}
use oxide_cast.Rtmp.Codec.Safety.{cut-Fits, frame-Fine, Fits, Fine}

-- What succeeds on a buffer has the same result on a longer one.
abbrev Stable : {A : Type 0} → (List ℕ → Result Stop A) → Type 0
Stable {A} f = (src more : List ℕ) (a : A) → f src ≡ ok a → f (src ++ more) ≡ ok a

Stable-bind :
    {A B : Type 0} (f : List ℕ → Result Stop A) (g : A → List ℕ → Result Stop B)
    → Stable f
    → ((a : A) → Stable (g a))
    → Stable (λ src. f src >>= λ a. g a src)
Stable-bind f g p q src more b h = elim (Result-cases (f src)) [
  | inl (a, e) ↦ rw (p src more a e) (q a src more b (rw e at h))
  | inr (s, e) ↦ absurd (cc (h, ap (λ r. r >>= λ a. g a src) e))
]

byte_at-Stable : (i : ℕ) → Stable (λ src. byte_at src i)
unfolding byte_at
byte_at-Stable i [] more a h = cc
byte_at-Stable zero (x ∷ src) more a h = h
byte_at-Stable (suc i) (x ∷ src) more a h = byte_at-Stable i src more a h

at_least-Stable : (n : ℕ) → Stable (at_least n)
at_least-Stable n src more a h = ground (arith, length-append src more)

ok-Stable : {A : Type 0} (a : A) → Stable (λ src. ok a)
ok-Stable a src more b h = h

if-Stable :
    {A : Type 0} (b : Bool) (f g : List ℕ → Result Stop A)
    → Stable f
    → Stable g
    → Stable (λ src. if b then f src else g src)
if-Stable true f g p q = p
if-Stable false f g p q = q

be24-Stable : (o : ℕ) → Stable (λ src. be24 src o)
unfolding be24
be24-Stable o = Stable-bind _ _ (byte_at-Stable o) λ a.
    Stable-bind _ _ (byte_at-Stable (o + 1))
      λ b. Stable-bind _ _ (byte_at-Stable (o + 2)) λ c. ok-Stable _

le32-Stable : (o : ℕ) → Stable (λ src. le32 src o)
unfolding le32
le32-Stable o = Stable-bind _ _ (byte_at-Stable o) λ a.
    Stable-bind _ _ (byte_at-Stable (o + 1)) λ b.
      Stable-bind _ _ (byte_at-Stable (o + 2))
        λ c. Stable-bind _ _ (byte_at-Stable (o + 3)) λ d. ok-Stable _

be32-Stable : (o : ℕ) → Stable (λ src. be32 src o)
unfolding be32
be32-Stable o = Stable-bind _ _ (byte_at-Stable o) λ a.
    Stable-bind _ _ (byte_at-Stable (o + 1)) λ b.
      Stable-bind _ _ (byte_at-Stable (o + 2))
        λ c. Stable-bind _ _ (byte_at-Stable (o + 3)) λ d. ok-Stable _

basic_header-Stable : (id : ℕ) → Stable (λ src. basic_header src id)
unfolding basic_header
basic_header-Stable id =
    if-Stable (id == 0) _ _
      (Stable-bind _ _ (at_least-Stable 2) λ _. Stable-bind _ _ (byte_at-Stable 1) λ a. ok-Stable _)
      (if-Stable (id == 1) _ _
        (Stable-bind _ _ (at_least-Stable 3) λ _.
          Stable-bind _ _ (byte_at-Stable 1)
            λ a. Stable-bind _ _ (byte_at-Stable 2) λ b. ok-Stable _)
        (ok-Stable _))

message_header-Stable : (fmt o : ℕ) → Stable (λ src. message_header src fmt o)
unfolding message_header
message_header-Stable fmt o =
    if-Stable (fmt == 0) _ _
      (Stable-bind _ _ (at_least-Stable (o + 11)) λ _. Stable-bind _ _ (be24-Stable o) λ t.
        Stable-bind _ _ (be24-Stable (o + 3)) λ l.
          Stable-bind _ _ (byte_at-Stable (o + 6))
            λ k. Stable-bind _ _ (le32-Stable (o + 7)) λ s. ok-Stable _)
      (if-Stable (fmt == 1) _ _
        (Stable-bind _ _ (at_least-Stable (o + 7)) λ _. Stable-bind _ _ (be24-Stable o) λ t.
          Stable-bind _ _ (be24-Stable (o + 3))
            λ l. Stable-bind _ _ (byte_at-Stable (o + 6)) λ k. ok-Stable _)
        (if-Stable (fmt == 2) _ _
          (Stable-bind _ _ (at_least-Stable (o + 3))
            λ _. Stable-bind _ _ (be24-Stable o) λ t. ok-Stable _)
          (if-Stable (fmt == 3) _ _ (ok-Stable _) (λ src more a h. h))))

extended_timestamp-Stable : (h : MessageHeader) → Stable (λ src. extended_timestamp src h)
unfolding extended_timestamp
extended_timestamp-Stable h =
    if-Stable (leb 0xFFFFFF h.timestamp) _ _
      (Stable-bind _ _ (at_least-Stable (h.offset + 4))
        λ _. Stable-bind _ _ (be32-Stable h.offset) λ t. ok-Stable _)
      (ok-Stable h)

frame-Stable : (c : RtmpCodec) → Stable (frame c)
unfolding frame
frame-Stable c = Stable-bind _ _ (byte_at-Stable 0) λ b.
    Stable-bind _ _ (basic_header-Stable (b % 64)) λ r.
      Stable-bind _ _ (message_header-Stable (b / 64 % 4) r.1) λ h.
        Stable-bind _ _ (extended_timestamp-Stable h)
          λ h'. Stable-bind _ _ (at_least-Stable (h'.offset + payload_size c h')) λ _. ok-Stable h'

cut-append :
    (c : RtmpCodec) (src more : List ℕ) (h : MessageHeader)
    → Fits c src h
    → cut c (src ++ more) (ok h) ≡ ((cut c src (ok h)).0, (cut c src (ok h)).1 ++ more)
cut-append c src more h (low, fits) =
    let n : ℕ = payload_size c h in
    let longer : Fits c (src ++ more) h = (low, omega (arith, length-append src more)) in
    rw
      (
        cut-Fits c src h (low, fits),
        cut-Fits c (src ++ more) h longer,
        drop-append_le h.offset src more (omega arith),
        take-append_le n (drop h.offset src) more (omega (arith, length-drop h.offset src)),
        drop-append_le (h.offset + n) src more fits,
      )
      refl

cut-append_result :
    (c : RtmpCodec) (src more : List ℕ) (f : Result Stop MessageHeader)
    → Fine (Fits c src) f
    → frame c src ≡ f
    → (cut c src f).0 ≢ ok none
    → cut c (src ++ more) (frame c (src ++ more)) ≡ ((cut c src f).0, (cut c src f).1 ++ more)
cut-append_result c src more (ok h) fits e some_result =
    rw (frame-Stable c src more h e) (cut-append c src more h fits)
cut-append_result c src more (err need_more) fits e some_result = absurd (some_result refl)
cut-append_result c src more (err invalid_format) fits e some_result = absurd fits
cut-append_result c src more (err out_of_bounds) fits e some_result = absurd fits

-- A message that `decode` finds does not depend on the bytes that arrive later, which join the
-- rest of the buffer; nor does an error that it reports.
pub decode-append :
    (c : RtmpCodec) (src more : List ℕ)
    → (decode c src).0 ≢ ok none
    → decode c (src ++ more) ≡ ((decode c src).0, (decode c src).1 ++ more)
unfolding decode
decode-append c src more some_result = elim (Bool-cases (ltb (length src) 12)) [
  | inl short ↦ absurd (some_result (rw short refl))
  | inr long ↦
      let longer : ltb (length (src ++ more)) 12 ≡ false = ground (arith, length-append src more) in
      rw (long, longer)
        (cut-append_result c src more (frame c src) (frame-Fine c src (ground arith)) refl
          (rw long at some_result))
]
