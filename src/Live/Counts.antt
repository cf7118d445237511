-- ===== src/Live/Counts.antt =====
-- What the counters of a connection (src/server.cpp) count: its conversation's items.

use asrcpp_gigam.Realtime.Settings.{Served}
use asrcpp_gigam.Base.{
  if◌then◌else◌, Bool-cases, is_empty, ℕ, ◌+◌, ◌≤◌, ◌≡◌, refl, inl, inr, [], ◌∷◌, ◌++◌, arith,
}
use asrcpp_gigam.Base.Bytes.{Bytes}
use asrcpp_gigam.Base.Floats.{Floats}
use asrcpp_gigam.Realtime.{
  RealtimeSession, S, next_event_id, next_item_id, ensure_current_item_id, commit_current_item,
}
use asrcpp_gigam.Realtime.Events.{event_buffer_committed, event_error}
use asrcpp_gigam.Live.{Outside}
use asrcpp_gigam.Live.Events.{C, send, send_error, send_commit}

module _ {fl : Floats} where
  abbrev pub open_items : RealtimeSession fl → ℕ
  open_items s = if is_empty s.current_item_id then 0 else 1

module _ (fl : Floats) where
  -- Of the session and the counters of completed and of committed items: no more items are completed
  -- than are committed, at least as many numbers of items are given out as items are committed, with
  -- one more for a current item, and the server can serve the configuration.
  pub record Sound (s : S fl) (completed committed : ℕ) : Type 0 where
    pub finished : completed ≤ committed
    pub named : committed + open_items s ≤ s.item_seq
    pub served : Served fl s.config

module _ (o : Outside) where
  abbrev pub Inv : C o → Type 0
  Inv c = Sound o.floats c.realtime c.completed_events c.committed_events

  -- A sent event that takes the next number and leaves the items as they are.
  pub send-Inv :
      (text : Bytes) (s : RealtimeSession o.floats) (c : C o)
      → s.item_seq ≡ c.realtime.item_seq
      → s.current_item_id ≡ c.realtime.current_item_id
      → Served o.floats s.config
      → Inv c
      → Inv (send o (text, s) c)
  unfolding send
  send-Inv text s c i n k v = record {
    finished = v.finished;
    named = rw (n) (omega (arith, v.named, i));
    served = k;
  }

  pub send_error-Inv :
      (code message param client_event_id : Bytes) (c : C o)
      → Inv c
      → Inv (send_error o code message param client_event_id c)
  unfolding send_error event_error next_event_id
  send_error-Inv code message param client_event_id c v =
      send-Inv [] _ (record c { last_error = code ++ (b':' ∷ message) }) refl refl v.served v

  -- The current item is named, by a new number if there was none.
  pub ensure-Sound :
      (s : RealtimeSession o.floats) (completed committed : ℕ)
      → Sound o.floats s completed committed
      → Sound o.floats (ensure_current_item_id o.floats s).1 completed committed
        × (1 ≡ open_items (ensure_current_item_id o.floats s).1)
  unfolding ensure_current_item_id next_item_id
  ensure-Sound s completed committed v = elim (Bool-cases (is_empty s.current_item_id)) [
    | inl e ↦
        rw e (
          record { finished = v.finished; named = omega (arith, v.named); served = v.served },
          refl,
        )
    | inr e ↦ rw e (v, rw e refl)
  ]

  named-Sound :
      (s t : RealtimeSession o.floats) (completed committed more : ℕ)
      → Sound o.floats t completed committed
      → more ≤ 1
      → 1 ≡ open_items t
      → s.item_seq ≡ t.item_seq
      → s.current_item_id ≡ []
      → Served o.floats s.config
      → Sound o.floats s (completed + more) (committed + 1)
  named-Sound s t completed committed more v h one i n k = record {
    finished = omega (arith, v.finished);
    named = rw n (omega (arith, v.named, one, i));
    served = k;
  }

  -- A commit closes the current item, with or without a transcription.
  pub send_commit-Sound :
      (c : C o) (more : ℕ)
      → more ≤ 1
      → Inv c
      → let (item, d) = send_commit o c in
        Sound o.floats d.realtime (c.completed_events + more) (c.committed_events + 1)
  unfolding send_commit commit_current_item event_buffer_committed next_event_id send
  send_commit-Sound c more h v =
      let (w, one) = ensure-Sound c.realtime c.completed_events c.committed_events v in
      let t = (ensure_current_item_id o.floats c.realtime).1 in
      let k =
        named-Sound
          (record t {
            previous_item_id = (ensure_current_item_id o.floats c.realtime).0;
            current_item_id = [];
          })
          t c.completed_events c.committed_events more w h one refl refl w.served in
      record { finished = k.finished; named = k.named; served = w.served }
