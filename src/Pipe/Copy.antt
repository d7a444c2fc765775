-- ===== src/Pipe/Copy.antt =====
-- The copy loops of `pipe_read` and `pipe_write`: which bytes they move, round the buffer's end, and
-- that their fuel is enough.
use thunderos.Prelude.{
  ℕ, zero, suc, ◌+◌, ◌-◌, ◌%◌, ◌≤◌, ◌<◌, ◌≡◌, refl, ◌∙◌, some, List, ◌&&◌, ltb, leb, if◌then◌else◌,
  arith, length, get_or, dec_lt,
}
use thunderos.Kstring.{kmemcpy}
use thunderos.Kstring.Copy.{get_or-kmemcpy, length-kmemcpy}
use thunderos.Pipe.{pipe_buf_size, capped, read_loop, write_loop}

-- What the reading loop has done: bytes `done` to `to_read` of the destination are those of the
-- buffer from `read_pos` on.
pub record DidRead (buffer dest : List ℕ) (read_pos to_read done : ℕ) (r : List ℕ × ℕ)
    : Type 0 where
  pub size : length r.0 ≡ length dest
  pub moved :
      (j : ℕ)
      → get_or r.0 j 0 ≡ (
          if leb done j && ltb j to_read
          then get_or buffer ((read_pos + (j - done)) % pipe_buf_size) 0
          else get_or dest j 0)
  pub position : r.1 ≡ (read_pos + (to_read - done)) % pipe_buf_size

module _ (buffer : List ℕ) (to_read : ℕ) where
  -- A round that copies `c` bytes, without reaching past the end of either array.
  read_step :
      (dest : List ℕ) (read_pos done c : ℕ) (r : List ℕ × ℕ)
      → to_read ≤ length dest
      → done + c ≤ to_read
      → read_pos + c ≤ pipe_buf_size
      → DidRead buffer
          (kmemcpy dest done buffer read_pos c)
          ((read_pos + c) % pipe_buf_size)
          to_read
          (done + c)
          r
      → DidRead buffer dest read_pos to_read done r
  read_step dest read_pos done c r fits few near t = record {
    size = t.size ∙ length-kmemcpy dest done buffer read_pos c;
    moved =
        λ j. ground (arith, t.moved j, get_or-kmemcpy dest done buffer read_pos c j (omega arith));
    position = t.position ∙ omega arith;
  }

  pub read_loop-DidRead :
      (fuel : ℕ) (dest : List ℕ) (read_pos done : ℕ)
      → read_pos < pipe_buf_size
      → to_read ≤ length dest
      → done ≤ to_read
      → to_read - done < fuel
      → (r : List ℕ × ℕ) × (read_loop fuel buffer dest read_pos to_read done ≡ some r)
        × DidRead buffer dest read_pos to_read done r
  unfolding read_loop
  read_loop-DidRead zero dest read_pos done inside fits le enough = absurd (omega arith)
  read_loop-DidRead (suc fuel) dest read_pos done inside fits le enough =
      elim (dec_lt done to_read) [
        | yes more ↦
            let c = capped (to_read - done) (pipe_buf_size - read_pos) in
            let dest' = kmemcpy dest done buffer read_pos c in
            let (r, e, t) =
              read_loop-DidRead fuel dest' ((read_pos + c) % pipe_buf_size) (done + c) (omega arith)
                (omega (arith, length-kmemcpy dest done buffer read_pos c)) (ground arith)
                (ground arith) in
            (
              r,
              ground (arith, e),
              read_step dest read_pos done c r fits (ground arith) (ground arith) t,
            )
        | no end ↦ (
          (dest, read_pos),
          ground arith,
          record { size = refl; moved = λ j. ground arith; position = omega arith },
        )
      ]

-- What the writing loop has done: the bytes `done` to `to_write` of the source stand in the buffer
-- from `write_pos` on, and its other slots are as they were.
pub record DidWrite (src buffer : List ℕ) (write_pos to_write done : ℕ) (r : List ℕ × ℕ)
    : Type 0 where
  pub size : length r.0 ≡ length buffer
  pub moved :
      (i : ℕ)
      → i < pipe_buf_size
      → get_or r.0 ((write_pos + i) % pipe_buf_size) 0 ≡ (
          if ltb i (to_write - done)
          then get_or src (done + i) 0
          else get_or buffer ((write_pos + i) % pipe_buf_size) 0)
  pub position : r.1 ≡ (write_pos + (to_write - done)) % pipe_buf_size

module _ (src : List ℕ) (to_write : ℕ) where
  write_step :
      (buffer : List ℕ) (write_pos done c : ℕ) (r : List ℕ × ℕ)
      → length buffer ≡ pipe_buf_size
      → to_write - done ≤ pipe_buf_size
      → done + c ≤ to_write
      → write_pos + c ≤ pipe_buf_size
      → write_pos < pipe_buf_size
      → DidWrite src
          (kmemcpy buffer write_pos src done c)
          ((write_pos + c) % pipe_buf_size)
          to_write
          (done + c)
          r
      → DidWrite src buffer write_pos to_write done r
  write_step buffer write_pos done c r whole room few near inside t = record {
    size = t.size ∙ length-kmemcpy buffer write_pos src done c;
    moved = λ i lt. elim (dec_lt i c) [
      | yes in_chunk ↦
          through i (i + pipe_buf_size - c) lt (omega arith) (omega arith) (ground arith)
      | no later ↦ through i (i - c) lt (omega arith) (omega arith) (ground arith)
    ];
    position = t.position ∙ omega arith;
  }
    where
      slot : ℕ → ℕ
      slot i = (write_pos + i) % pipe_buf_size

      -- Slot `i` from `write_pos` on is slot `k` from the next position on.
      through :
          (i k : ℕ)
          → i < pipe_buf_size
          → k < pipe_buf_size
          → ((write_pos + c) % pipe_buf_size + k) % pipe_buf_size ≡ slot i
          → (if ltb k (to_write - (done + c))
              then get_or src (done + c + k) 0
              else if leb write_pos (slot i) && ltb (slot i) (write_pos + c)
              then get_or src (done + (slot i - write_pos)) 0
              else get_or buffer (slot i) 0)
            ≡ (if ltb i (to_write - done)
                then get_or src (done + i) 0
                else get_or buffer (slot i) 0)
          → get_or r.0 (slot i) 0 ≡ (
              if ltb i (to_write - done) then get_or src (done + i) 0 else get_or buffer (slot i) 0)
      through i k li lk e same =
          let there =
            rw (e, get_or-kmemcpy buffer write_pos src done c (slot i) (omega arith)) at
              (t.moved k lk) in
          there ∙ same

  pub write_loop-DidWrite :
      (fuel : ℕ) (buffer : List ℕ) (write_pos done : ℕ)
      → length buffer ≡ pipe_buf_size
      → write_pos < pipe_buf_size
      → to_write - done ≤ pipe_buf_size
      → done ≤ to_write
      → to_write - done < fuel
      → (r : List ℕ × ℕ) × (write_loop fuel buffer src write_pos to_write done ≡ some r)
        × DidWrite src buffer write_pos to_write done r
  unfolding write_loop
  write_loop-DidWrite zero buffer write_pos done whole inside room le enough = absurd (omega arith)
  write_loop-DidWrite (suc fuel) buffer write_pos done whole inside room le enough =
      elim (dec_lt done to_write) [
        | yes more ↦
            let c = capped (to_write - done) (pipe_buf_size - write_pos) in
            let buffer' = kmemcpy buffer write_pos src done c in
            let (r, e, t) =
              write_loop-DidWrite fuel buffer' ((write_pos + c) % pipe_buf_size) (done + c)
                (length-kmemcpy buffer write_pos src done c ∙ whole) (omega arith) (ground arith)
                (ground arith) (ground arith) in
            (
              r,
              ground (arith, e),
              write_step buffer write_pos done c r whole room (ground arith) (ground arith) inside
                  t,
            )
        | no end ↦ (
          (buffer, write_pos),
          ground arith,
          record { size = refl; moved = λ i lt. ground arith; position = omega arith },
        )
      ]
