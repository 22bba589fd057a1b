-- ===== src/File/Copy/Ending.antt =====
-- The pool once CopyFile (CaptureFileMonitor.c) has ended.
use hsn_capture_hpc_ng.Base.{
  ℕ, ◌<◌, List, Option, none, some, arith, length, Bool-cases, Option-cases, inl, inr,
}
use hsn_capture_hpc_ng.Kernel.Pool.{Pool, Holds, free-allocated-Holds}
use hsn_capture_hpc_ng.Kernel.Status.{nt_success}
use hsn_capture_hpc_ng.File.Copy.{
  Write, Copies, Copy, CopyAnswers, copied, copy_file, copy_buffer_size, Reads, copy_loop,
  copy_loop-Copies,
}

-- CopyFile ends, and the pool holds what it is said to.
abbrev pub CopyHolds : List ℕ → Option Copy → Type 0
CopyHolds bs none = ⊥
CopyHolds bs (some c) = Holds c.pool bs

copied-CopyHolds :
    (contents : List ℕ) (o : Option (List Write)) (m : Pool) (bs : List ℕ)
    → Copies contents 0 o
    → Holds m bs
    → CopyHolds bs (copied o m)
unfolding copied Copies
copied-CopyHolds contents none m bs c h = c
copied-CopyHolds contents (some ws) m bs c h = h

-- Whatever else the kernel answers, the pool holds what it did.
pub copy_file-CopyHolds :
    (contents : List ℕ) (a : CopyAnswers) (read : ℕ → ℕ × List ℕ) (fuel : ℕ) (m : Pool)
    (bs : List ℕ)
    → Reads contents copy_buffer_size read
    → length contents < fuel
    → Holds m bs
    → CopyHolds bs (copy_file a read fuel m)
unfolding copy_file
copy_file-CopyHolds contents a read fuel m bs reads enough h =
    elim (Bool-cases (nt_success a.query_status)) [
      | inr q ↦ rw q h
      | inl q ↦ rw q (elim (Bool-cases (nt_success a.create_status)) [
        | inr c ↦ rw c h
        | inl c ↦ rw c (elim (Bool-cases (nt_success a.reference_status)) [
          | inr r ↦ rw r h
          | inl r ↦ rw r (elim (Option-cases a.buffer) [
            | inl e ↦ rw e h
            | inr e ↦ rw e.1 (
                copied-CopyHolds contents (copy_loop read copy_buffer_size fuel 0) _ bs
                  (copy_loop-Copies contents copy_buffer_size read reads (omega arith) fuel 0
                    (omega arith) (omega arith))
                  (free-allocated-Holds e.0 m bs h))
          ])
        ])
      ])
    ]
