-- ===== src/Pipe/Contents.antt =====
-- What a pipe holds, and that `pipe_read` and `pipe_write` move bytes through it in order: the copy
-- loops over the circular buffer take from the front of a byte list and append to its end.
use thunderos.Prelude.{
  ℕ, ◌+◌, ◌-◌, ◌%◌, ◌≤◌, ◌<◌, ◌≡◌, refl, ap, ap₂, ◌∙◌, sym, List, ◌++◌, arith, length, take, drop,
  drop_ext, window, window_ext, window-append, window-mod, take-window,
}
use thunderos.Pipe.{Pipe, pipe_buf_size}
use thunderos.Pipe.Copy.{DidRead, DidWrite}

pub record IsValid (p : Pipe) : Type 0 where
  pub size : length p.buffer ≡ pipe_buf_size
  pub read_in : p.read_pos < pipe_buf_size
  pub data_in : p.data_size ≤ pipe_buf_size
  pub write_at : p.write_pos ≡ (p.read_pos + p.data_size) % pipe_buf_size

-- The bytes that wait in the pipe, the oldest first.
abbrev pub contents : Pipe → List ℕ
contents p = window 0 pipe_buf_size p.buffer p.read_pos p.data_size

-- What stays: who has the pipe open.
pub record SameEnds (p q : Pipe) : Type 0 where
  pub same_state : q.state ≡ p.state
  pub same_read_refs : q.read_ref_count ≡ p.read_ref_count
  pub same_write_refs : q.write_ref_count ≡ p.write_ref_count

-- What taking `n` bytes into `dest` has done.
pub record Took (p : Pipe) (dest : List ℕ) (n : ℕ) (dest' : List ℕ) (q : Pipe) : Type 0 where
  pub valid : IsValid q
  pub front : contents p ≡ take n dest' ++ contents q
  pub rest : drop n dest' ≡ drop n dest
  pub size : length dest' ≡ length dest
  pub ends : SameEnds p q

module _ (p : Pipe) (dest : List ℕ) (n : ℕ) (r : List ℕ × ℕ) (v : IsValid p) (le : n ≤ p.data_size)
    (fits : n ≤ length dest) where
  abbrev pub after_read : Pipe
  after_read = record p { read_pos = r.1; data_size = p.data_size - n }

  moved_out :
      DidRead p.buffer dest p.read_pos n 0 r
      → take n r.0 ≡ window 0 pipe_buf_size p.buffer p.read_pos n
  moved_out t =
      take-window 0 pipe_buf_size r.0 p.buffer p.read_pos n (omega (arith, t.size))
        λ i lt. ground (arith, t.moved i)

  read_front :
      DidRead p.buffer dest p.read_pos n 0 r → contents p ≡ take n r.0 ++ contents after_read
  read_front t =
      let whole : p.data_size ≡ n + (p.data_size - n) = omega arith in
      let position : r.1 ≡ (p.read_pos + n) % pipe_buf_size = t.position ∙ omega arith in
      let there : window 0 pipe_buf_size p.buffer (p.read_pos + n) (p.data_size - n)
          ≡ contents after_read =
        sym (window-mod 0 pipe_buf_size p.buffer (p.read_pos + n) (p.data_size - n))
        ∙ ap (λ k. window 0 pipe_buf_size p.buffer k (p.data_size - n)) (sym position) in
      ap (window 0 pipe_buf_size p.buffer p.read_pos) whole
      ∙ window-append 0 pipe_buf_size p.buffer p.read_pos n (p.data_size - n)
      ∙ ap₂ ◌++◌ (sym (moved_out t)) there

  pub DidRead-Took : DidRead p.buffer dest p.read_pos n 0 r → Took p dest n r.0 after_read
  DidRead-Took t = record {
    valid = record {
      size = v.size;
      read_in = omega (arith, t.position);
      data_in = omega (arith, v.data_in);
      write_at = v.write_at ∙ omega (arith, t.position);
    };
    front = read_front t;
    rest = drop_ext r.0 dest n 0 t.size λ j later. ground (arith, t.moved j);
    size = t.size;
    ends = record { same_state = refl; same_read_refs = refl; same_write_refs = refl };
  }

-- What appending the first `n` bytes of `src` has done.
pub record Put (p : Pipe) (src : List ℕ) (n : ℕ) (q : Pipe) : Type 0 where
  pub valid : IsValid q
  pub appended : contents q ≡ contents p ++ take n src
  pub ends : SameEnds p q

module _ (p : Pipe) (src : List ℕ) (n : ℕ) (r : List ℕ × ℕ) (v : IsValid p)
    (room : p.data_size + n ≤ pipe_buf_size) (given : n ≤ length src) where
  abbrev pub after_write : Pipe
  after_write = record p { buffer = r.0; write_pos = r.1; data_size = p.data_size + n }

  old_bytes :
      DidWrite src p.buffer p.write_pos n 0 r
      → window 0 pipe_buf_size r.0 p.read_pos p.data_size ≡ contents p
  old_bytes t = window_ext 0 pipe_buf_size r.0 p.buffer p.read_pos p.read_pos p.data_size λ i lt.
      let k = i + pipe_buf_size - p.data_size in
      let slot : (p.write_pos + k) % pipe_buf_size ≡ (p.read_pos + i) % pipe_buf_size =
        omega (arith, v.write_at, v.data_in) in
      let there = rw slot at (t.moved k (omega (arith, v.data_in))) in there ∙ ground arith

  new_bytes :
      DidWrite src p.buffer p.write_pos n 0 r
      → window 0 pipe_buf_size r.0 (p.read_pos + p.data_size) n ≡ take n src
  new_bytes t = sym (
      take-window 0 pipe_buf_size src r.0 (p.read_pos + p.data_size) n given λ i lt.
        let slot : (p.write_pos + i) % pipe_buf_size
            ≡ (p.read_pos + p.data_size + i) % pipe_buf_size =
          omega (arith, v.write_at) in
        let there = rw slot at (t.moved i (omega arith)) in sym (there ∙ ground arith))

  pub DidWrite-Put : DidWrite src p.buffer p.write_pos n 0 r → Put p src n after_write
  DidWrite-Put t = record {
    valid = record {
      size = t.size ∙ v.size;
      read_in = v.read_in;
      data_in = room;
      write_at = t.position ∙ omega (arith, v.write_at);
    };
    appended =
        window-append 0 pipe_buf_size r.0 p.read_pos p.data_size n
        ∙ ap₂ ◌++◌ (old_bytes t) (new_bytes t);
    ends = record { same_state = refl; same_read_refs = refl; same_write_refs = refl };
  }
