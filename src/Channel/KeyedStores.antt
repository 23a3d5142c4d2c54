-- ===== src/Channel/KeyedStores.antt =====
-- KeyBy: a buffer that has been worked on is put back into the map.
use arcon.Common.{
  ℕ, ◌<◌, ◌≡◌, sym, ap, ◌∙◌, subst, true, false, some, List, [], ◌∷◌, ◌++◌, append-nil, arith, ◌==◌,
  if◌then◌else◌, ℕ_discrete,
}
use arcon.Common.Assoc.{get, insert, get-insert_self, get-insert_ne}
use arcon.Data.{NodeId, ArconEventWrapper}
use arcon.Channel.{BufferWriter}
use arcon.Channel.Delivery.{events_on}
use arcon.Channel.KeyedSteps.{Sent, Buffers, Stepped, Sized, waiting, seen}

module _ {A : Type 0} (sender_id : NodeId) (buffer_size : ℕ) (room : 0 < buffer_size) where
  pub Sized-insert :
      (c : ℕ) (w : BufferWriter A) (m : Buffers A)
      → w.capacity ≡ buffer_size
      → Sized sender_id buffer_size room m
      → Sized sender_id buffer_size room (insert ℕ_discrete c w m)
  unfolding insert
  Sized-insert c w [] h s = (h, tt)
  Sized-insert c w ((k, u) ∷ m) h s = ground (arith, Sized-insert c w m h s.1)

  pub Sized-get :
      (c : ℕ) (w : BufferWriter A) (m : Buffers A)
      → Sized sender_id buffer_size room m
      → get ℕ_discrete c m ≡ some w
      → w.capacity ≡ buffer_size
  unfolding get
  Sized-get c w [] s h = absurd (ground arith)
  Sized-get c w ((k, u) ∷ m) s h = ground (arith, Sized-get c w m s.1)

  stored_here :
      (k : ℕ) (w : BufferWriter A) (new : List (ArconEventWrapper A)) (m : Buffers A)
      (sent : Sent A) (r : BufferWriter A × Sent A)
      → get ℕ_discrete k m ≡ some w
      → Stepped sender_id buffer_size room new k w sent r
      → seen sender_id buffer_size room k (insert ℕ_discrete k r.0 m) r.1
        ≡ seen sender_id buffer_size room k m sent ++ new
  stored_here k w new m sent r found f =
      ap (λ t. events_on k r.1 ++ waiting sender_id buffer_size room t)
        (get-insert_self ℕ_discrete k r.0 m)
      ∙ (f.grows
          ∙ ap (λ t. (events_on k sent ++ waiting sender_id buffer_size room t) ++ new) (sym found))

  -- The buffer of channel `k` has been worked on and put back.
  pub stored-grows :
      (c k : ℕ) (w : BufferWriter A) (new : List (ArconEventWrapper A)) (m : Buffers A)
      (sent : Sent A) (r : BufferWriter A × Sent A)
      → get ℕ_discrete k m ≡ some w
      → Stepped sender_id buffer_size room new k w sent r
      → seen sender_id buffer_size room c (insert ℕ_discrete k r.0 m) r.1
        ≡ seen sender_id buffer_size room c m sent ++ (if c == k then new else [])
  stored-grows c k w new m sent r found f = elim (ℕ_discrete c k) [
    | yes here ↦
        let test : (c == k) ≡ true = ground arith in
        rw test (
          subst
            (λ j.
              seen sender_id buffer_size room j (insert ℕ_discrete k r.0 m) r.1
              ≡ seen sender_id buffer_size room j m sent ++ new)
            (sym here) (stored_here k w new m sent r found f))
    | no there ↦
        let test : (c == k) ≡ false = ground arith in
        rw test (
          ap (λ t. events_on c r.1 ++ waiting sender_id buffer_size room t)
            (get-insert_ne ℕ_discrete k c r.0 m (λ e. there (sym e)))
          ∙ (ap (λ t. t ++ waiting sender_id buffer_size room (get ℕ_discrete c m))
                (f.others c there)
              ∙ sym (append-nil _)))
  ]
