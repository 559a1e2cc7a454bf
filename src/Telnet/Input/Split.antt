-- ===== src/Telnet/Input/Split.antt =====
-- The handler does the same however the client's bytes are split into messages.
use hc.Base.{
  ℕ, ◌≡◌, ◌≢◌, ◌⊎◌, inl, inr, refl, ap, sym, subst, ◌∙◌, arith, Bool, true, List, [], ◌∷◌, ◌++◌,
  Option, none, some, length, append_assoc,
}
use hc.Telnet.{Server, Call, saved_size}
use hc.Telnet.Saved.{put_saved, take_saved, clear_saved, take_saved-put_saved}
use hc.Telnet.Input.{on_client_fd}
use hc.Telnet.Input.Reference.{
  Event, events, Hears, Said, Hears-unique, Hears-IsPending, Hears-append,
}
use hc.Telnet.Input.Chunks.{left_by, on_client_fd-Hears}

append-not-nil : {a : List ℕ} (b : List ℕ) → a ≢ [] → a ++ b ≢ []
append-not-nil {a = []} b h = absurd (h refl)
append-not-nil {a = c ∷ cs} b h = λ e. cc

module _ (succeeds : List Call → Bool) (always : (t : List Call) → succeeds t ≡ true) where
  -- The server that the first part has left takes its pending command up again.
  left_by-left_by :
      (s : Server) (pending : List ℕ) (end : Option (List ℕ))
      → length (put_saved (clear_saved s.saved) pending) ≡ length s.saved
      → left_by succeeds always (left_by succeeds always s (some pending)) end
        ≡ left_by succeeds always s end
  unfolding clear_saved
  left_by-left_by s pending none h = rw h refl
  left_by-left_by s pending (some p) h = rw h refl

  -- If all calls succeed, a message `a` and then a message `b` have the effect of the message of both:
  -- either the client is kicked at `a`, as it is at both, after the same bytes and window sizes have
  -- reached the terminal; or `b` after `a` leaves the server, its array `saved` included, as both
  -- together do, and the terminal has received the same.
  pub on_client_fd_split :
      (s : Server) (fd : ℕ) (a b : List ℕ) (trace : List Call)
      → s.client_fd ≡ some fd
      → length s.saved ≡ saved_size
      → a ≢ []
      → b ≢ []
      → let first = on_client_fd succeeds s a trace in
        let second = on_client_fd succeeds first.0 b first.1 in
        let whole = on_client_fd succeeds s (a ++ b) trace in
        ((first.0.client_fd ≡ none) × (whole.0 ≡ first.0) × (events whole.1 ≡ events first.1))
        ⊎ ((first.0.client_fd ≡ some fd)
            × (whole.0 ≡ second.0)
            × (events whole.1 ≡ events second.1))
  on_client_fd_split s fd a b trace connected size na nb =
      let (es, end, h, st, ev) = on_client_fd-Hears succeeds always s a trace na in
      let (ws, last, wh, wst, wev) =
        on_client_fd-Hears succeeds always s (a ++ b) trace (append-not-nil b na) in
      by_end es end h st ev ws last
        (subst (λ t. Hears t ws last) (sym (append_assoc (take_saved s.saved) a b)) wh) wst wev
    where
      first : Server × List Call
      first = on_client_fd succeeds s a trace

      whole : Server × List Call
      whole = on_client_fd succeeds s (a ++ b) trace

      by_end :
          (es : List Event) (end : Option (List ℕ))
          → Hears (take_saved s.saved ++ a) es end
          → first.0 ≡ left_by succeeds always s end
          → events first.1 ≡ events trace ++ es
          → (ws : List Event) (last : Option (List ℕ))
          → Hears ((take_saved s.saved ++ a) ++ b) ws last
          → whole.0 ≡ left_by succeeds always s last
          → events whole.1 ≡ events trace ++ ws
          → ((first.0.client_fd ≡ none) × (whole.0 ≡ first.0) × (events whole.1 ≡ events first.1))
            ⊎ ((first.0.client_fd ≡ some fd)
                × (whole.0 ≡ (on_client_fd succeeds first.0 b first.1).0)
                × (events whole.1 ≡ events (on_client_fd succeeds first.0 b first.1).1))
      by_end es none h st ev ws last wh wst wev =
          let q : ◌≡◌ {A = Said} (es, none) (ws, last) = Hears-unique (Hears-append b h) wh in
          inl (
            ap (λ x. x.client_fd) st,
            wst ∙ ap (left_by succeeds always s) (sym (ap (λ x. x.1) q)) ∙ sym st,
            wev ∙ ap (λ x. events trace ++ x) (sym (ap (λ x. x.0) q)) ∙ sym ev,
          )
      by_end es (some p) h st ev ws last wh wst wev =
          let (fits, pending) = Hears-IsPending h in
          let (again, size') = take_saved-put_saved s.saved p (omega arith) pending in
          let (fs, end, g, st', ev') = on_client_fd-Hears succeeds always first.0 b first.1 nb in
          let g' : Hears (p ++ b) fs end =
            subst (λ t. Hears (t ++ b) fs end) (ap (λ x. take_saved x.saved) st ∙ again) g in
          let q : ◌≡◌ {A = Said} (es ++ fs, end) (ws, last) =
            Hears-unique (Hears-append b h fs end g') wh in
          inr (
            ap (λ x. x.client_fd) st ∙ connected,
            wst
                ∙ ap (left_by succeeds always s) (sym (ap (λ x. x.1) q))
                ∙ sym (
                    st'
                    ∙ ap (λ x. left_by succeeds always x end) st
                    ∙ left_by-left_by s p end size'),
            wev
                ∙ ap (λ x. events trace ++ x) (sym (ap (λ x. x.0) q))
                ∙ sym (append_assoc (events trace) es fs)
                ∙ sym (ev' ∙ ap (λ x. x ++ fs) ev),
          )
