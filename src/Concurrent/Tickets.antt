-- ===== src/Concurrent/Tickets.antt =====
-- The calls of the group: which goroutine leads which, and who waits. `tk` and `wf` give the
-- ticket that each goroutine leads and the one that it waits for.
use mathlib.Core.Option.{some-injective}
use cache_server_go.Base.{
  ℕ, ◌≡◌, ◌≢◌, ap, sym, ◌∙◌, ◌⊎◌, inl, inr, true, false, Option, none, some, Bytes,
}
use cache_server_go.Concurrent.Group.{Group, GroupLaws, Role, leads, waits}

module _ (g : Group) where
  open g use {Ticket, Table, result, is_open}

  -- An open call has one leader; a leader's call is open; whoever waits does so for a call that is
  -- open or has its result.
  pub record Opens (t : Table) (tk wf : ℕ → Option Ticket) : Type 0 where
    pub lead_open : (i : ℕ) (n : Ticket) → tk i ≡ some n → is_open n t ≡ true
    pub unique : (i j : ℕ) (n : Ticket) → tk i ≡ some n → tk j ≡ some n → i ≡ j
    pub led : (n : Ticket) → is_open n t ≡ true → (i : ℕ) × (tk i ≡ some n)
    pub waited :
        (i : ℕ) (n : Ticket)
        → wf i ≡ some n
        → (is_open n t ≡ true) ⊎ ((r : Option Bytes) × (result n t ≡ some r))

  -- A move that leaves the table and the leaders alone, and after which no one newly waits.
  pub Opens-calm :
      (t : Table) (tk wf tk' wf' : ℕ → Option Ticket)
      → ((j : ℕ) → tk' j ≡ tk j)
      → ((j : ℕ) (n : Ticket) → wf' j ≡ some n → wf j ≡ some n)
      → Opens t tk wf
      → Opens t tk' wf'
  Opens-calm t tk wf tk' wf' same old v = record {
    lead_open = λ i n h. v.lead_open i n (sym (same i) ∙ h);
    unique = λ i j n h k. v.unique i j n (sym (same i) ∙ h) (sym (same j) ∙ k);
    led = λ n h. let (i, e) = v.led n h in (i, same i ∙ e);
    waited = λ i n h. v.waited i n (old i n h);
  }

  -- A function that gives `a` at `i`, and elsewhere what `f` gives.
  pub record Changes (f f' : ℕ → Option Ticket) (i : ℕ) (a : Option Ticket) : Type 0 where
    pub here : f' i ≡ a
    pub at : (j : ℕ) → ((j ≡ i) × (f' j ≡ a)) ⊎ ((j ≢ i) × (f' j ≡ f j))

module _ (g : Group) (laws : GroupLaws g) where
  open g use {Ticket, Table, join, finish, result, is_open}

  waited_of_join :
      (key : Bytes) (t : Table) (m : Ticket)
      → (is_open m t ≡ true) ⊎ ((r : Option Bytes) × (result m t ≡ some r))
      → (is_open m (join key t).1 ≡ true)
        ⊎ ((r : Option Bytes) × (result m (join key t).1 ≡ some r))
  waited_of_join key t m (inl o) = inl (laws.join-open key m t o)
  waited_of_join key t m (inr (r, e)) = inr (r, laws.result_of_join key m t ∙ e)

  pub Opens-leads :
      (key : Bytes) (n : Ticket) (t : Table) (tk wf tk' wf' : ℕ → Option Ticket) (i : ℕ)
      → (join key t).0 ≡ leads n
      → tk i ≡ none
      → Changes g tk tk' i (some n)
      → ((j : ℕ) (m : Ticket) → wf' j ≡ some m → wf j ≡ some m)
      → Opens g t tk wf
      → Opens g (join key t).1 tk' wf'
  Opens-leads key n t tk wf tk' wf' i role none_yet c old v = record {
    lead_open = λ j m h. elim (c.at j) [
      | inl (p, e) ↦ rw (← some-injective _ _ (sym e ∙ h)) new.2
      | inr (p, e) ↦ laws.join-open key m t (v.lead_open j m (sym e ∙ h))
    ];
    unique = λ j k m h h'. elim (c.at j) [
      | inl (p, e) ↦ elim (c.at k) [
        | inl (q, f) ↦ p ∙ sym q
        | inr (q, f) ↦ absurd (not_new k m (sym f ∙ h') (some-injective _ _ (sym e ∙ h)))
      ]
      | inr (p, e) ↦ elim (c.at k) [
        | inl (q, f) ↦ absurd (not_new j m (sym e ∙ h) (some-injective _ _ (sym f ∙ h')))
        | inr (q, f) ↦ v.unique j k m (sym e ∙ h) (sym f ∙ h')
      ]
    ];
    led = λ m h. elim (laws.open_of_join key m t h) [
      | inl lead ↦ (i, c.here ∙ ap some (leads_injective n m (sym role ∙ lead)))
      | inr o ↦ let (j, e) = v.led m o in (j, kept j m e)
    ];
    waited = λ j m h. waited_of_join key t m (v.waited j m (old j m h));
  }
    where
      new : (g.key_of n ≡ key) × (is_open n t ≡ false) × (is_open n (join key t).1 ≡ true)
      new = laws.leads_new key n t role

      not_new : (k : ℕ) (m : Ticket) → tk k ≡ some m → n ≡ m → ⊥
      not_new k m h e = cc (v.lead_open k m h, new.1, ap (λ x. is_open x t) e)

      leads_injective : (a b : Ticket) → ◌≡◌ {A = Role Ticket} (leads a) (leads b) → a ≡ b
      leads_injective a b e = cc

      kept : (j : ℕ) (m : Ticket) → tk j ≡ some m → tk' j ≡ some m
      kept j m e = elim (c.at j) [
        | inl (p, f) ↦ absurd (cc (none_yet, e, ap tk p))
        | inr (p, f) ↦ f ∙ e
      ]

  pub Opens-waits :
      (key : Bytes) (n : Ticket) (t : Table) (tk wf tk' wf' : ℕ → Option Ticket) (i : ℕ)
      → (join key t).0 ≡ waits n
      → ((j : ℕ) → tk' j ≡ tk j)
      → Changes g wf wf' i (some n)
      → Opens g t tk wf
      → Opens g (join key t).1 tk' wf'
  Opens-waits key n t tk wf tk' wf' i role same c v = record {
    lead_open = λ j m h. laws.join-open key m t (v.lead_open j m (sym (same j) ∙ h));
    unique = λ j k m h h'. v.unique j k m (sym (same j) ∙ h) (sym (same k) ∙ h');
    led = λ m h. elim (laws.open_of_join key m t h) [
      | inl lead ↦ absurd (not_lead m (sym role ∙ lead))
      | inr o ↦ let (j, e) = v.led m o in (j, same j ∙ e)
    ];
    waited = λ j m h. elim (c.at j) [
      | inl (p, e) ↦ inl (rw (← some-injective _ _ (sym e ∙ h)) (laws.waits_open key n t role).1)
      | inr (p, e) ↦ waited_of_join key t m (v.waited j m (sym e ∙ h))
    ];
  }
    where
      not_lead : (m : Ticket) → ◌≡◌ {A = Role Ticket} (waits n) (leads m) → ⊥
      not_lead m e = cc

  pub Opens-finish :
      (n : Ticket) (r : Option Bytes) (t : Table) (tk wf tk' wf' : ℕ → Option Ticket) (i : ℕ)
      → tk i ≡ some n
      → Changes g tk tk' i none
      → ((j : ℕ) (m : Ticket) → wf' j ≡ some m → wf j ≡ some m)
      → Opens g t tk wf
      → Opens g (finish n r t) tk' wf'
  Opens-finish n r t tk wf tk' wf' i lead c old v = record {
    lead_open = λ j m h. elim (c.at j) [
      | inl (p, e) ↦ absurd (cc (e, h))
      | inr (p, e) ↦ elim (laws.finish-open m n r t is_led (v.lead_open j m (sym e ∙ h))) [
        | inl same ↦ absurd (p (v.unique j i n (sym e ∙ h ∙ ap some same) lead))
        | inr o ↦ o
      ]
    ];
    unique = λ j k m h h'. v.unique j k m (before j m h) (before k m h');
    led = λ m h.
        let (other, o) = laws.open_of_finish m n r t is_led h in
        let (j, e) = v.led m o in
        elim (c.at j) [
          | inl (p, f) ↦ absurd (other (some-injective _ _ (sym e ∙ ap tk p ∙ lead)))
          | inr (p, f) ↦ (j, f ∙ e)
        ];
    waited = λ j m h. elim (v.waited j m (old j m h)) [
      | inl o ↦ elim (laws.finish-open m n r t is_led o) [
        | inl same ↦
            inr (r, ap (λ x. result x (finish n r t)) same ∙ laws.finish-result n r t is_led)
        | inr open' ↦ inl open'
      ]
      | inr (x, e) ↦ elim (laws.result_of_finish m n r t) [
        | inl (same, given) ↦ inr (r, given)
        | inr kept ↦ inr (x, kept ∙ e)
      ]
    ];
  }
    where
      is_led : is_open n t ≡ true
      is_led = v.lead_open i n lead

      before : (j : ℕ) (m : Ticket) → tk' j ≡ some m → tk j ≡ some m
      before j m h = elim (c.at j) [ inl (p, e) ↦ absurd (cc (e, h)) | inr (p, e) ↦ sym e ∙ h ]
