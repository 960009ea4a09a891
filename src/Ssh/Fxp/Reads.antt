-- ===== src/Ssh/Fxp/Reads.antt =====
-- One read of the field parser: on what the marshaller wrote, and on any input.
use flightsim.Prelude.{
  ℕ, ◌^◌, ◌<◌, ◌≤◌, ◌≡◌, refl, sym, ap, ◌∙◌, ◌++◌, Option, none, ltb, le→ltb_false, ltb_false→le,
  arith, length, take, drop, All, All-take, All-drop, Bool-cases, inl, inr, take-append,
  drop-append, take-append-drop, length-append, length-take, append_assoc,
}
use flightsim.Prelude.Bytes.{Bytes, IsByte}
use flightsim.Utils.Marshal.{marshal_uint32, unmarshal_uint32, marshal_uint64, marshal_string}
use flightsim.Utils.Marshal.RoundTrip.{
  length-marshal_uint32, length-marshal_uint64, unmarshal_uint32-marshal_uint32,
  unmarshal_uint64-marshal_uint64, unmarshal_uint32-lt, unmarshal_uint64-lt,
  marshal_uint32-unmarshal_uint32, marshal_uint64-unmarshal_uint64, marshal_string_lem,
}
use flightsim.Ssh.Fxp.Parser.{
  FxpError, FieldParser, read_uint32, read_uint64, read_text, read_string,
}

abbrev pub at_bytes : Bytes → Option FxpError → FieldParser
at_bytes b e = record { buffer = b; err = e }

module _ (e : Option FxpError) (rest : Bytes) where
  pub read_uint32-marshal :
      (n : ℕ)
      → n < 2 ^ 32
      → read_uint32 (at_bytes (marshal_uint32 n ++ rest) e) ≡ (n, at_bytes rest e)
  unfolding read_uint32
  read_uint32-marshal n h =
      rw
        (
          le→ltb_false (length (marshal_uint32 n ++ rest)) 4
              (omega (arith, length-append (marshal_uint32 n) rest, length-marshal_uint32 n)),
          take-append 4 (marshal_uint32 n) rest (sym (length-marshal_uint32 n)),
          drop-append 4 (marshal_uint32 n) rest (sym (length-marshal_uint32 n)),
          unmarshal_uint32-marshal_uint32 n h,
        )
        refl

  pub read_uint64-marshal :
      (n : ℕ)
      → n < 2 ^ 64
      → read_uint64 (at_bytes (marshal_uint64 n ++ rest) e) ≡ (n, at_bytes rest e)
  unfolding read_uint64
  read_uint64-marshal n h =
      rw
        (
          le→ltb_false (length (marshal_uint64 n ++ rest)) 8
              (omega (arith, length-append (marshal_uint64 n) rest, length-marshal_uint64 n)),
          take-append 8 (marshal_uint64 n) rest (sym (length-marshal_uint64 n)),
          drop-append 8 (marshal_uint64 n) rest (sym (length-marshal_uint64 n)),
          unmarshal_uint64-marshal_uint64 n h,
        )
        refl

  read_text-append :
      (s : Bytes) → read_text (length s) (at_bytes (s ++ rest) e) ≡ (s, at_bytes rest e)
  unfolding read_text
  read_text-append s =
      rw
        (
          le→ltb_false (length (s ++ rest)) (length s) (omega (arith, length-append s rest)),
          take-append (length s) s rest refl,
          drop-append (length s) s rest refl,
        )
        refl

  pub read_string-marshal :
      (s : Bytes)
      → length s < 2 ^ 32
      → read_string (at_bytes (marshal_string s ++ rest) e) ≡ (s, at_bytes rest e)
  unfolding read_string
  read_string-marshal s h =
      let head = marshal_uint32 (length s) in
      let whole : marshal_string s ++ rest ≡ head ++ (s ++ rest) =
        rw (marshal_string_lem s h, append_assoc) refl in
      rw
        (
          whole,
          le→ltb_false (length (head ++ (s ++ rest))) 4
              (omega (arith, length-append head (s ++ rest), length-marshal_uint32 (length s))),
          take-append 4 head (s ++ rest) (sym (length-marshal_uint32 (length s))),
          drop-append 4 head (s ++ rest) (sym (length-marshal_uint32 (length s))),
          unmarshal_uint32-marshal_uint32 (length s) h,
        )
        (read_text-append s)

-- From state `f` the parser took exactly `field` and came to `g` with no error.
pub record Reads (f : FieldParser) (field : Bytes) (g : FieldParser) : Type 0 where
  pub clean : f.err ≡ none
  pub taken : f.buffer ≡ field ++ g.buffer
  pub bytes_left : All IsByte g.buffer

-- A read that leaves no error took the marshalled form of its result.
pub read_uint32-Reads :
    (f : FieldParser)
    → All IsByte f.buffer
    → (read_uint32 f).1.err ≡ none
    → Reads f (marshal_uint32 (read_uint32 f).0) (read_uint32 f).1 × ((read_uint32 f).0 < 2 ^ 32)
unfolding read_uint32
read_uint32-Reads f bytes e = elim (Bool-cases (ltb (length f.buffer) 4)) [
  | inl short ↦ absurd (ground arith)
  | inr enough ↦
      let len : length (take 4 f.buffer) ≡ 4 =
        omega (arith, length-take 4 f.buffer, ltb_false→le (length f.buffer) 4 enough) in
      let head = All-take IsByte 4 f.buffer bytes in
      rw enough (
        record {
          clean = rw enough at e;
          taken =
              rw (marshal_uint32-unmarshal_uint32 (take 4 f.buffer) len head)
                (sym (take-append-drop 4 f.buffer));
          bytes_left = All-drop IsByte 4 f.buffer bytes;
        },
        unmarshal_uint32-lt (take 4 f.buffer) len head,
      )
]

pub read_uint64-Reads :
    (f : FieldParser)
    → All IsByte f.buffer
    → (read_uint64 f).1.err ≡ none
    → Reads f (marshal_uint64 (read_uint64 f).0) (read_uint64 f).1 × ((read_uint64 f).0 < 2 ^ 64)
unfolding read_uint64
read_uint64-Reads f bytes e = elim (Bool-cases (ltb (length f.buffer) 8)) [
  | inl short ↦ absurd (ground arith)
  | inr enough ↦
      let len : length (take 8 f.buffer) ≡ 8 =
        omega (arith, length-take 8 f.buffer, ltb_false→le (length f.buffer) 8 enough) in
      let head = All-take IsByte 8 f.buffer bytes in
      rw enough (
        record {
          clean = rw enough at e;
          taken =
              rw (marshal_uint64-unmarshal_uint64 (take 8 f.buffer) len head)
                (sym (take-append-drop 8 f.buffer));
          bytes_left = All-drop IsByte 8 f.buffer bytes;
        },
        unmarshal_uint64-lt (take 8 f.buffer) len head,
      )
]

read_text-Reads :
    (len : ℕ) (f : FieldParser)
    → All IsByte f.buffer
    → (read_text len f).1.err ≡ none
    → Reads f (read_text len f).0 (read_text len f).1
      × (length (read_text len f).0 ≡ len)
      × All IsByte (read_text len f).0
unfolding read_text
read_text-Reads len f bytes e = elim (Bool-cases (ltb (length f.buffer) len)) [
  | inl short ↦ absurd (ground arith)
  | inr enough ↦ rw enough (
    record {
      clean = rw enough at e;
      taken = sym (take-append-drop len f.buffer);
      bytes_left = All-drop IsByte len f.buffer bytes;
    },
    omega (arith, length-take len f.buffer, ltb_false→le (length f.buffer) len enough),
    All-take IsByte len f.buffer bytes,
  )
]

-- A string on the wire: below 2 ^ 32 bytes.
abbrev pub IsWireString : Bytes → Type 0
IsWireString s = (length s < 2 ^ 32) × All IsByte s

-- A length of four bytes and the text behind it make the marshalled string.
length_then_text :
    (head s rest : Bytes)
    → length head ≡ 4
    → All IsByte head
    → length s ≡ unmarshal_uint32 head
    → head ++ (s ++ rest) ≡ marshal_string s ++ rest
length_then_text head s rest len bytes e =
    let small : length s < 2 ^ 32 = omega (arith, unmarshal_uint32-lt head len bytes) in
    rw (marshal_string_lem s small, e, marshal_uint32-unmarshal_uint32 head len bytes, append_assoc)
      refl

string_after_length :
    (f : FieldParser)
    → All IsByte f.buffer
    → 4 ≤ length f.buffer
    → let head = take 4 f.buffer in
      let r = read_text (unmarshal_uint32 head) (record f { buffer = drop 4 f.buffer }) in
      r.1.err ≡ none → Reads f (marshal_string r.0) r.1 × IsWireString r.0
string_after_length f bytes enough e =
    let head = take 4 f.buffer in
    let front = All-take IsByte 4 f.buffer bytes in
    let len : length head ≡ 4 = omega (arith, length-take 4 f.buffer) in
    let (rd, size, text_bytes) =
      read_text-Reads (unmarshal_uint32 head) (record f { buffer = drop 4 f.buffer })
        (All-drop IsByte 4 f.buffer bytes) e in
    (
      record {
        clean = rd.clean;
        taken =
            sym (take-append-drop 4 f.buffer)
            ∙ ap (λ (b : Bytes). head ++ b) rd.taken
            ∙ length_then_text head _ _ len front size;
        bytes_left = rd.bytes_left;
      },
      (omega (arith, unmarshal_uint32-lt head len front, size), text_bytes),
    )

pub read_string-Reads :
    (f : FieldParser)
    → All IsByte f.buffer
    → (read_string f).1.err ≡ none
    → Reads f (marshal_string (read_string f).0) (read_string f).1 × IsWireString (read_string f).0
unfolding read_string
read_string-Reads f bytes e = elim (Bool-cases (ltb (length f.buffer) 4)) [
  | inl short ↦ absurd (ground arith)
  | inr enough ↦
      rw enough
        (string_after_length f bytes (ltb_false→le (length f.buffer) 4 enough) (rw enough at e))
]

-- An error stays: a state with none came from a state with none.
pub read_uint32_clean : (f : FieldParser) → (read_uint32 f).1.err ≡ none → f.err ≡ none
unfolding read_uint32
read_uint32_clean f e = ground arith

pub read_uint64_clean : (f : FieldParser) → (read_uint64 f).1.err ≡ none → f.err ≡ none
unfolding read_uint64
read_uint64_clean f e = ground arith

pub read_string_clean : (f : FieldParser) → (read_string f).1.err ≡ none → f.err ≡ none
unfolding read_string read_text
read_string_clean f e = ground arith

-- Two reads in a row take the two fields.
pub Reads-append :
    {f g h : FieldParser} {a b : Bytes} → Reads f a g → Reads g b h → Reads f (a ++ b) h
Reads-append {f} {g} {h} {a} {b} r s = record {
  clean = r.clean;
  taken = r.taken ∙ ap (λ (x : Bytes). a ++ x) s.taken ∙ sym (append_assoc a b h.buffer);
  bytes_left = s.bytes_left;
}
