-- ===== src/Dump/Tcp/Stream.antt =====
-- What `TcpJoiner::push` hands on, against the byte stream that the flow's segments are cut from.
use pqcscan.Base.{
  ℕ, ◌+◌, ◌%◌, ◌≤◌, ◌<◌, ◌≡◌, refl, some, none, Option, [], ◌∷◌, ◌++◌, arith, Bytes, length,
  length-append, ◌==◌, Bool-cases, inl, inr, ==_iff,
}
use pqcscan.Base.Reading.{At, At-join, At-length, At-move}
use pqcscan.Dump.Tcp.{u32_mod, TcpJoiner, joiner_new, joiner_push}

-- `xs` is the part of the stream that begins at offset `q`.
pub record IsPart (stream : Bytes) (q : ℕ) (xs : Bytes) : Type 0 where
  pub after : Bytes
  pub at : At stream q (xs ++ after)

-- The buffer is a part of the stream, and `next_seq` is the number of the byte behind it.
pub record Tracks (stream : Bytes) (isn : ℕ) (j : TcpJoiner) : Type 0 where
  pub q : ℕ
  pub part : IsPart stream q j.buffer
  pub next : j.next_seq ≡ (isn + (q + length j.buffer)) % u32_mod

-- A handed-on piece is the part of the stream that ends where the segment ends.
abbrev pub Delivers : Bytes → ℕ → Option Bytes → Type 0
Delivers stream end none = Unit {0}
Delivers stream end (some xs) = (q : ℕ) × IsPart stream q xs × (q + length xs ≡ end)

module _ (stream : Bytes) (isn : ℕ) (short : length stream < u32_mod) where
  IsPart-le : (q : ℕ) (xs : Bytes) → IsPart stream q xs → q + length xs ≤ length stream
  IsPart-le q xs p = omega (arith, At-length p.at, length-append xs p.after)

  pub joiner_new-Tracks :
      (p : ℕ) (payload : Bytes)
      → IsPart stream p payload
      → Tracks stream isn (joiner_new ((isn + p) % u32_mod))
  joiner_new-Tracks p payload h = record {
    q = p;
    part = record { after = payload ++ h.after; at = h.at };
    next = omega arith;
  }

  -- For a segment that is a part of a stream of less than 2^32 bytes, in whatever order segments
  -- come, the joiner keeps track of the stream, and what it hands on is a part of the stream that
  -- ends where the segment ends.
  pub joiner_push-Tracks :
      (j : TcpJoiner) (p : ℕ) (payload : Bytes)
      → Tracks stream isn j
      → IsPart stream p payload
      → Tracks stream isn (joiner_push j ((isn + p) % u32_mod) payload).0
        × Delivers stream (p + length payload) (joiner_push j ((isn + p) % u32_mod) payload).1
  unfolding joiner_push
  joiner_push-Tracks j p [] t h = (t, tt)
  joiner_push-Tracks j p (b ∷ payload) t h = elim (Bool-cases ((isn + p) % u32_mod == j.next_seq)) [
    | inl hit ↦
        let e = (==_iff _ _).0 hit in
        let le = IsPart-le t.q j.buffer t.part in
        let le' = IsPart-le p (b ∷ payload) h in
        let here : p ≡ t.q + length j.buffer = omega (arith, e, t.next) in
        rw hit (
          record {
            q = p + length (b ∷ payload);
            part = record { after = h.after; at = At-move (b ∷ payload) _ h.at refl };
            next = omega arith;
          },
          (
            t.q,
            record {
              after = h.after;
              at = At-join j.buffer (b ∷ payload) t.part.after h.after p t.part.at h.at here;
            },
            omega (arith, length-append j.buffer (b ∷ payload)),
          ),
        )
    | inr miss ↦ rw miss (record { q = p; part = h; next = omega arith }, tt)
  ]
