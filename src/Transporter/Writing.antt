-- ===== src/Transporter/Writing.antt =====
-- writeAll and the visit of the nodes in doWrite, of internal/transporter/internal/client/conn.go. The
-- `Write` of a network connection is the parameter `write`: from the number of the call and the data, how
-- many bytes it takes and whether it fails.
use xbase.Prelude.{
  ℕ, zero, suc, ◌+◌, ◌≤◌, ◌<◌, ◌≡◌, inl, inr, refl, sym, ap, ◌∙◌, Bool, true, false, List, [], ◌∷◌,
  ◌++◌, arith, ltb, ◌==◌, if◌then◌else◌, length, take, drop, Bool-cases, append_assoc, append-nil,
  take-append-drop, length-drop, Option, none, some,
}

-- What the connection took, and how often it was written to.
pub record Wire : Type 0 where
  pub bytes : List ℕ
  pub writes : ℕ

-- The results of writeAll; `out_of_range` is the slice `data[n:]`, `stuck` is no fuel.
pub data Written : Type 0 where
  written failed short_write out_of_range stuck : Written

-- One round of the loop of writeAll after `Write` gave `n` and whether it fails; `rest` is the loop on
-- what is left.
abbrev pub written_some : Wire → List ℕ → ℕ × Bool → (Wire × Written) → Wire × Written
written_some w bs (n, true) rest = (w, failed)
written_some w bs (n, false) rest =
    if n == 0 then (w, short_write) else if ltb (length bs) n then (w, out_of_range) else rest

abbrev pub wire_after : Wire → ℕ → List ℕ → Wire
wire_after w n bs = record { bytes = w.bytes ++ take n bs; writes = w.writes + 1 }

abbrev pub joined : List (List ℕ) → List ℕ
joined [] = []
joined (bs ∷ nodes) = bs ++ joined nodes

module _ (write : ℕ → List ℕ → ℕ × Bool) where
  unfoldable pub write_all : ℕ → Wire → List ℕ → Wire × Written
  write_all zero w bs = (w, stuck)
  write_all (suc fuel) w [] = (w, written)
  write_all (suc fuel) w (b ∷ bs) =
      let taken = write w.writes (b ∷ bs) in
      let w' = wire_after w taken.0 (b ∷ bs) in
      let rest = write_all fuel w' (drop taken.0 (b ∷ bs)) in written_some w' (b ∷ bs) taken rest

  -- `msg.buf.Visit` with the function of doWrite: an empty node is passed, a failure ends the visit.
  abbrev pub visited : Wire × Written → Wire × Bool → Wire × Bool
  visited (w, written) rest = rest
  visited (w, _) rest = (w, false)

  unfoldable pub visit_nodes : Wire → List (List ℕ) → Wire × Bool
  unfolding write_all
  visit_nodes w [] = (w, true)
  visit_nodes w ([] ∷ nodes) = visit_nodes w nodes
  visit_nodes w ((b ∷ bs) ∷ nodes) =
      let run = write_all (suc (length (b ∷ bs))) w (b ∷ bs) in
      let rest = visit_nodes run.0 nodes in visited run rest

  -- What `Write` documents: it takes no more than it is given.
  abbrev pub Takes : Type 0
  Takes = (k : ℕ) (bs : List ℕ) → (write k bs).0 ≤ length bs

  -- What a run leaves: a prefix of the bytes went out, all of them where the run has ended well, and
  -- otherwise the run failed.
  abbrev pub Sends : Wire → List ℕ → Wire × Bool → Type 0
  Sends w bs (w', good) =
      (sent : List ℕ) × (rest : List ℕ) × (sent ++ rest ≡ bs)
      × (w'.bytes ≡ w.bytes ++ sent)
      × (good ≡ true → rest ≡ [])

  abbrev pub ended : Written → Option Bool
  ended written = some true
  ended failed = some false
  ended short_write = some false
  ended _ = none

  abbrev pub Ends : Wire → List ℕ → Wire × Written → Type 0
  Ends w bs (w', r) = (good : Bool) × (ended r ≡ some good) × Sends w bs (w', good)

  module _ (takes : Takes) where
    stop : (w : Wire) (n : ℕ) (bs : List ℕ) → Sends w bs (wire_after w n bs, false)
    stop w n bs =
        (take n bs, drop n bs, take-append-drop n bs, refl, λ e. absurd (ground (arith, e)))

    go_on :
        (w : Wire) (n : ℕ) (bs : List ℕ) (run : Wire × Bool)
        → Sends (wire_after w n bs) (drop n bs) run
        → Sends w bs run
    go_on w n bs run (sent, rest, e, out, full) = (
      take n bs ++ sent,
      rest,
      append_assoc (take n bs) sent rest ∙ ap (λ l. take n bs ++ l) e ∙ take-append-drop n bs,
      out ∙ append_assoc w.bytes (take n bs) sent,
      full,
    )

    written_some-Ends :
        (w : Wire) (bs : List ℕ) (r : ℕ × Bool) (run : Wire × Written)
        → r.0 ≤ length bs
        → (0 < r.0 → Ends (wire_after w r.0 bs) (drop r.0 bs) run)
        → Ends w bs (written_some (wire_after w r.0 bs) bs r run)
    written_some-Ends w bs (n, true) run h k = (false, refl, stop w n bs)
    written_some-Ends w bs (n, false) run h k = elim (Bool-cases (n == 0)) [
      | inl e ↦ rw e (false, refl, stop w n bs)
      | inr e ↦
          let fits : ltb (length bs) n ≡ false = ground (arith, h) in
          let (good, r, sends) = k (ground (arith, e)) in
          rw (e, fits) (good, r, go_on w n bs (run.0, good) sends)
    ]

    -- Where `Write` takes no more than it is given: with one unit of fuel more than there are bytes, the
    -- loop ends, in range: with all the bytes out, or with an error and a prefix of them out.
    pub write_all_lem :
        (fuel : ℕ) (w : Wire) (bs : List ℕ) → length bs < fuel → Ends w bs (write_all fuel w bs)
    unfolding write_all
    write_all_lem zero w bs h = absurd (omega arith)
    write_all_lem (suc fuel) w [] h =
        (true, refl, ([], [], refl, sym (append-nil w.bytes), λ e. refl))
    write_all_lem (suc fuel) w (b ∷ bs) h =
        let taken = write w.writes (b ∷ bs) in
        written_some-Ends w (b ∷ bs) taken
          (write_all fuel (wire_after w taken.0 (b ∷ bs)) (drop taken.0 (b ∷ bs)))
          (takes w.writes (b ∷ bs))
          (λ some_taken.
            write_all_lem fuel (wire_after w taken.0 (b ∷ bs)) (drop taken.0 (b ∷ bs))
              (omega (arith, length-drop taken.0 (b ∷ bs), takes w.writes (b ∷ bs), h)))

    Sends-nil : (w : Wire) → Sends w [] (w, true)
    Sends-nil w = ([], [], refl, sym (append-nil w.bytes), λ e. refl)

    visited-Sends :
        (w : Wire) (bs tail : List ℕ) (run : Wire × Written) (rest : Wire × Bool)
        → Ends w bs run
        → Sends run.0 tail rest
        → Sends w (bs ++ tail) (visited run rest)
    visited-Sends w bs tail (w', written) rest (good, r, (sent, left, e, out, full))
          (sent', left', e', out', full') =
        let none_left : left ≡ [] = full (ended_good good r) in
        let all_sent : sent ≡ bs =
          sym (append-nil sent) ∙ ap (λ l. sent ++ l) (sym none_left) ∙ e in
        (
          sent ++ sent',
          left',
          append_assoc sent sent' left' ∙ ap (λ l. sent ++ l) e' ∙ ap (λ l. l ++ tail) all_sent,
          out' ∙ ap (λ l. l ++ sent') out ∙ append_assoc w.bytes sent sent',
          full',
        )
      where
        ended_good : (good : Bool) → some true ≡ some good → good ≡ true
        ended_good good r = ground (arith, r)
    visited-Sends w bs tail (w', failed) rest (good, r, (sent, left, e, out, full)) after = (
      sent,
      left ++ tail,
      sym (append_assoc sent left tail) ∙ ap (λ l. l ++ tail) e,
      out,
      λ q. absurd (ground (arith, q)),
    )
    visited-Sends w bs tail (w', short_write) rest (good, r, (sent, left, e, out, full)) after = (
      sent,
      left ++ tail,
      sym (append_assoc sent left tail) ∙ ap (λ l. l ++ tail) e,
      out,
      λ q. absurd (ground (arith, q)),
    )
    visited-Sends w bs tail (w', _) rest (good, r, sends) after = absurd (ground (arith, r))

    -- Where `Write` takes no more than it is given: the visit of the nodes ends, it puts a prefix of
    -- their bytes on the wire, in order and each once, and where it says that it is good, all of them.
    pub visit_nodes_lem :
        (w : Wire) (nodes : List (List ℕ)) → Sends w (joined nodes) (visit_nodes w nodes)
    unfolding visit_nodes
    visit_nodes_lem w [] = Sends-nil w
    visit_nodes_lem w ([] ∷ nodes) = visit_nodes_lem w nodes
    visit_nodes_lem w ((b ∷ bs) ∷ nodes) =
        let run = write_all (suc (length (b ∷ bs))) w (b ∷ bs) in
        visited-Sends w (b ∷ bs) (joined nodes) run (visit_nodes run.0 nodes)
          (write_all_lem (suc (length (b ∷ bs))) w (b ∷ bs) (omega arith))
          (visit_nodes_lem run.0 nodes)
