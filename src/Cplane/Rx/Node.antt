-- ===== src/Cplane/Rx/Node.antt =====
-- The node `tap_inject_rx`: every descriptor that can be read, and no buffer lost.
use routerd.Prelude.{
  ℕ, suc, ◌+◌, ◌≤◌, ◌<◌, ◌≡◌, ◌⊎◌, inl, inr, refl, sym, ap, ◌∙◌, List, [], ◌∷◌, ◌++◌, append-nil,
  ◌==◌, length, length-append, map, Returns, Returns->>=, if◌then◌else◌, arith,
}
use routerd.Vppinfra.{Vppinfra}
use routerd.Cplane.Env.{Vpp}
use routerd.Cplane.TapTable.{sw_of}
use routerd.Cplane.Frames.{Frames}
use routerd.Cplane.Rx.{num_buffers_to_alloc, Event, warn_rx, Answer, Rx, rx_loop, tap_inject_rx}
use routerd.Cplane.Rx.Pool.{gives, puts, gives-append, puts-append}
use routerd.Cplane.Rx.Read.{IsAnswer, Missed, Received, Kept, tap_rx_lem}

-- How often an index stands in a list.
pub count_of : ℕ → List ℕ → ℕ
count_of x [] = 0
count_of x (y ∷ ys) = (if x == y then 1 else 0) + count_of x ys

count_of-append : (x : ℕ) (xs ys : List ℕ) → count_of x (xs ++ ys) ≡ count_of x xs + count_of x ys
unfolding count_of
count_of-append x [] ys = omega arith
count_of-append x (y ∷ xs) ys = omega (arith, count_of-append x xs ys)

map-append :
    (ps qs : List (ℕ × ℕ)) → map (λ p. p.1) (ps ++ qs) ≡ map (λ p. p.1) ps ++ map (λ p. p.1) qs
map-append [] qs = refl
map-append (p ∷ ps) qs = ap (λ l. p.1 ∷ l) (map-append ps qs)

module _ (V : Vppinfra) (vpp : Vpp) where
  -- The buffers that leave the pool for a node.
  abbrev pub put_buffers : List Event → List ℕ
  put_buffers es = map (λ p. p.1) (puts es)

  -- Buffers are neither lost nor doubled: each is, as often as it was in the pool or was given by
  -- VPP, in the pool after or at a node.
  abbrev pub Conserved : Frames V → Rx V → Type 0
  Conserved st r =
      (x : ℕ)
      → count_of x r.1.main.rx_buffers + count_of x (put_buffers r.2)
        ≡ count_of x st.main.rx_buffers + count_of x (gives r.2)

  abbrev Ends : ℕ → List ℕ → ℕ → List Event → Type 0
  Ends value fds count es =
      (value ≡ count + length fds) × (length (puts es) ≡ length fds)
      ⊎ (value ≡ 0) × (length (puts es) < length fds)

  abbrev Looped : Frames V → List ℕ → ℕ → Rx V → Type 0
  Looped st fds count r =
      (length r.1.main.rx_buffers ≤ num_buffers_to_alloc) × Conserved st r × Ends r.0 fds count r.2

  IsAnswer-same :
      (st st' : Frames V) (a : Answer)
      → ((j : ℕ) → sw_of V st'.main j ≡ sw_of V st.main j)
      → IsAnswer V vpp st a
      → IsAnswer V vpp st' a
  IsAnswer-same st st' a e p = record {
    few = p.few;
    fits = p.fits;
    known = λ fd m. rw (e fd) (p.known fd (λ q. m (e fd ∙ q)));
  }

  Kept-Conserved : (st : Frames V) (r : Rx V) → Kept V vpp st r → Conserved st r
  Kept-Conserved st r k x = omega (
    arith,
    sym (count_of-append x r.1.main.rx_buffers (put_buffers r.2))
        ∙ ap (count_of x) k.1
        ∙ count_of-append x st.main.rx_buffers (gives r.2),
  )

  Conserved-trans :
      (st : Frames V) (r q : Rx V)
      → Conserved st r
      → Conserved r.1 q
      → Conserved st (q.0, q.1, r.2 ++ q.2)
  Conserved-trans st r q c d x =
      rw
        (
          puts-append r.2 q.2,
          gives-append r.2 q.2,
          map-append (puts r.2) (puts q.2),
          count_of-append x (put_buffers r.2) (put_buffers q.2),
          count_of-append x (gives r.2) (gives q.2),
        )
        (omega (arith, c x, d x))

  Conserved-warn :
      (st : Frames V) (r : Rx V) → Kept V vpp st r → Conserved st (0, r.1, r.2 ++ warn_rx ∷ [])
  unfolding puts gives
  Conserved-warn st r k x = simp (puts-append, gives-append, append-nil) (Kept-Conserved st r k x)

  fewer : (r : Rx V) → puts r.2 ≡ [] → (n : ℕ) → length (puts (r.2 ++ warn_rx ∷ [])) < suc n
  unfolding puts
  fewer r e n = omega (arith, ap length (puts-append r.2 (warn_rx ∷ []) ∙ ap (λ l. l ++ []) e))

  step :
      (r q : Rx V) (fds : List ℕ) (count : ℕ)
      → length (puts r.2) ≡ 1
      → Ends q.0 fds (count + 1) q.2
      → (fd : ℕ) → Ends q.0 (fd ∷ fds) count (r.2 ++ q.2)
  step r q fds count e d fd =
      let n = ap length (puts-append r.2 q.2) ∙ length-append (puts r.2) (puts q.2) in
      elim d [
        | inl y ↦ inl (omega (arith, y.0), omega (arith, n, e, y.1))
        | inr y ↦ inr (y.0, omega (arith, n, e, y.1))
      ]

  rx_loop-Looped :
      (answers : ℕ → Answer) (st : Frames V) (fds : List ℕ) (count : ℕ)
      → ((i : ℕ) → IsAnswer V vpp st (answers i))
      → length st.main.rx_buffers ≤ num_buffers_to_alloc
      → Returns (Looped st fds count) (rx_loop V vpp answers st fds count)
  unfolding rx_loop puts gives count_of
  rx_loop-Looped answers st [] count p h = (h, (λ x. refl), inl (omega arith, refl))
  rx_loop-Looped answers st (fd ∷ fds) count p h =
      Returns->>=
        (λ r.
          Kept V vpp st r
          × (Missed V vpp st (answers count) fd r ⊎ Received V vpp st (answers count) fd r))
        _ _ _ (tap_rx_lem V vpp (answers count) st fd (p count) h)
        λ r w. elim w.1 [
          | inl m ↦ rw m.0 (w.0.0, Conserved-warn st r w.0, inr (refl, fewer r m.1 (length fds)))
          | inr m ↦ rw m.0 (
              Returns->>= (Looped r.1 fds (count + 1)) _ _ _
                (rx_loop-Looped answers r.1 fds (count + 1)
                  (λ i. IsAnswer-same st r.1 (answers i) w.0.2 (p i)) w.0.0)
                λ q d. (
                  d.0,
                  Conserved-trans st r q (Kept-Conserved st r w.0) d.1,
                  step r q fds count (let (n, b, hw, e, k, u, _, _, _, _) = m.1 in ap length u) d.2
                      fd,
                ))
        ]

  -- Where VPP and Linux keep their promises in every round and the pool has at most 32 buffers,
  -- `tap_inject_rx` makes no access out of bounds, leaves no descriptor noted and keeps the pool's
  -- bound, and no buffer is lost or doubled. It returns the number of descriptors that were noted
  -- if each of them gave a packet to a node, and 0 if one did not.
  pub tap_inject_rx_lem :
      (answers : ℕ → Answer) (st : Frames V)
      → ((i : ℕ) → IsAnswer V vpp st (answers i))
      → length st.main.rx_buffers ≤ num_buffers_to_alloc
      → Returns
          (λ r.
            (r.1.main.rx_file_descriptors ≡ [])
            × (length r.1.main.rx_buffers ≤ num_buffers_to_alloc)
            × Conserved st r
            × ((r.0 ≡ length st.main.rx_file_descriptors)
                  × (length (puts r.2) ≡ length st.main.rx_file_descriptors)
                ⊎ (r.0 ≡ 0) × (length (puts r.2) < length st.main.rx_file_descriptors)))
          (tap_inject_rx V vpp answers st)
  unfolding tap_inject_rx
  tap_inject_rx_lem answers st p h =
      Returns->>= (Looped st st.main.rx_file_descriptors 0) _ _ _
        (rx_loop-Looped answers st st.main.rx_file_descriptors 0 p h)
        λ r w. (refl, w.0, w.1, elim w.2 [ inl y ↦ inl (omega (arith, y.0), y.1) | inr y ↦ inr y ])
