-- ===== src/Pipe/Ends.antt =====
-- How `pipe_read` and `pipe_write` end once there are bytes, or room for them.
use thunderos.Prelude.{
  ℕ, suc, subst, Bool-cases, inl, inr, ◌+◌, ◌-◌, ◌≤◌, ◌≡◌, refl, List, arith, ltb, min,
  if◌then◌else◌, length,
}
use thunderos.Errno.{ok}
use thunderos.Kernel.{Kernel}
use thunderos.WaitQueue.{wait_queue_wake}
use thunderos.Pipe.{
  Pipe, pipe_buf_size, capped, Outcome, returned, read_ready, write_ready, wake_readers,
  wake_writers,
}
use thunderos.Pipe.Copy.{read_loop-DidRead, write_loop-DidWrite}
use thunderos.Pipe.Contents.{IsValid, Took, Put, DidRead-Took, DidWrite-Put}

-- A wake-up changes the queues of the pipe only.
module _ (p : Pipe) (dest : List ℕ) (n : ℕ) (dest' : List ℕ) (q : Pipe) (k : Kernel)
    (t : Took p dest n dest' q) where
  Took-wake : Took p dest n dest' (wake_writers q k).0
  Took-wake = record {
    valid = record {
      size = t.valid.size;
      read_in = t.valid.read_in;
      data_in = t.valid.data_in;
      write_at = t.valid.write_at;
    };
    front = t.front;
    rest = t.rest;
    size = t.size;
    ends = record {
      same_state = t.ends.same_state;
      same_read_refs = t.ends.same_read_refs;
      same_write_refs = t.ends.same_write_refs;
    };
  }

module _ (p : Pipe) (src : List ℕ) (n : ℕ) (q : Pipe) (k : Kernel) (t : Put p src n q) where
  Put-wake : Put p src n (wake_readers q k).0
  Put-wake = record {
    valid = record {
      size = t.valid.size;
      read_in = t.valid.read_in;
      data_in = t.valid.data_in;
      write_at = t.valid.write_at;
    };
    appended = t.appended;
    ends = record {
      same_state = t.ends.same_state;
      same_read_refs = t.ends.same_read_refs;
      same_write_refs = t.ends.same_write_refs;
    };
  }

-- How `pipe_read` ends once there is data: it takes `n` bytes, and wakes all writers if `n` is not 0.
pub record ReadEnds (p : Pipe) (k : Kernel) (dest : List ℕ) (n : ℕ) (o : Outcome) : Type 0 where
  pub dest' : List ℕ
  pub q : Pipe
  pub k' : Kernel
  pub returns : o ≡ returned (ok n) dest' q k'
  pub took : Took p dest n dest' q
  pub wakes : k' ≡ (if ltb 0 n then (wait_queue_wake p.writers k).2 else k)

-- How `pipe_write` ends once there is room.
pub record WriteEnds (p : Pipe) (k : Kernel) (src : List ℕ) (n : ℕ) (o : Outcome) : Type 0 where
  pub q : Pipe
  pub k' : Kernel
  pub returns : o ≡ returned (ok n) src q k'
  pub put : Put p src n q
  pub wakes : k' ≡ (if ltb 0 n then (wait_queue_wake p.readers k).2 else k)

capped-min : (a b : ℕ) → capped a b ≡ min a b
capped-min a b = ground arith

module _ (p : Pipe) (k : Kernel) (dest : List ℕ) (count : ℕ) (v : IsValid p)
    (fits : count ≤ length dest) where
  abbrev reads : ℕ
  reads = capped count p.data_size

  reads_in : (reads ≤ p.data_size) × (reads ≤ length dest)
  reads_in = (ground arith, ground arith)

  read_ready-capped : ReadEnds p k dest reads (read_ready p k dest count)
  unfolding read_ready
  read_ready-capped =
      let (r, e, t) =
        read_loop-DidRead p.buffer reads (suc reads) dest p.read_pos 0 v.read_in reads_in.1
          (omega arith) (omega arith) in
      let took = DidRead-Took p dest reads r v reads_in.0 reads_in.1 t in
      rw (e, read_ready)
        (elim (Bool-cases (ltb 0 reads)) [
          | inl more ↦ rw more (record {
            dest' = r.0;
            q = _;
            k' = _;
            returns = refl;
            took = Took-wake p dest reads r.0 _ k took;
            wakes = rw more refl;
          })
          | inr none_left ↦ rw none_left (record {
            dest' = r.0;
            q = _;
            k' = _;
            returns = refl;
            took = took;
            wakes = rw none_left refl;
          })
        ])

  -- The copy of `pipe_read` on a valid pipe.
  pub read_ready-ReadEnds : ReadEnds p k dest (min count p.data_size) (read_ready p k dest count)
  read_ready-ReadEnds =
      subst (λ n. ReadEnds p k dest n (read_ready p k dest count)) (capped-min count p.data_size)
        read_ready-capped

module _ (p : Pipe) (k : Kernel) (src : List ℕ) (count : ℕ) (v : IsValid p)
    (given : count ≤ length src) where
  abbrev writes : ℕ
  writes = capped count (pipe_buf_size - p.data_size)

  writes_in : (p.data_size + writes ≤ pipe_buf_size) × (writes ≤ length src)
  writes_in = (ground (arith, v.data_in), ground arith)

  write_ready-capped : WriteEnds p k src writes (write_ready p k src count)
  unfolding write_ready
  write_ready-capped =
      let (r, e, t) =
        write_loop-DidWrite src writes (suc writes) p.buffer p.write_pos 0 v.size
          (omega (arith, v.write_at)) (omega (arith, writes_in)) (omega arith) (omega arith) in
      let put = DidWrite-Put p src writes r v writes_in.0 writes_in.1 t in
      rw (e, write_ready)
        (elim (Bool-cases (ltb 0 writes)) [
          | inl more ↦ rw more (record {
            q = _;
            k' = _;
            returns = refl;
            put = Put-wake p src writes _ k put;
            wakes = rw more refl;
          })
          | inr none_given ↦
              rw none_given
                (record { q = _; k' = _; returns = refl; put = put; wakes = rw none_given refl })
        ])

  pub write_ready-WriteEnds :
      WriteEnds p k src (min count (pipe_buf_size - p.data_size)) (write_ready p k src count)
  write_ready-WriteEnds =
      subst (λ n. WriteEnds p k src n (write_ready p k src count))
        (capped-min count (pipe_buf_size - p.data_size)) write_ready-capped
