-- ===== src/Agents/Execution/Gates.antt =====
-- When the agent of src/agents/execution.rs acts, and what its actions are.
use crypto_scalper.Execution.Paper.{price_or}
use crypto_scalper.Agents.Execution.Count.{settle-book}
use crypto_scalper.Execution.Position.Book.{lookup-check_exits, survives, survivor}
use crypto_scalper.Prelude.{
  String, ◌+◌, ◌%◌, ◌^◌, ◌≡◌, refl, ap, ◌∙◌, ◌↔◌, inl, inr, Bool, true, false, none, some, List, [],
  ◌∷◌, arith, Bool-cases, ok, string_eq, All,
}
use crypto_scalper.Prelude.Dict.{lookup, lookup-insert_self, IsDistinct}
use crypto_scalper.Float.{◌⊗◌, Float, ◌<?◌, ◌≤?◌, nought}
use crypto_scalper.Time.{Time}
use crypto_scalper.Execution.Orders.{OrderAck, PlaceOrder}
use crypto_scalper.Agents.Requests.{terms, client_id_of, entry_request, Naming}
use crypto_scalper.Execution.Position.{
  open_position, outcome, check_exits, PositionExitReason, Position,
}
use crypto_scalper.Execution.Risk.{on_position_opened, is_blocked}
use crypto_scalper.Agents.Execution.Entry.{
  new_position, on_fill, fill_price_of, on_answer, is_closed_to, on_verdict, declines,
}
use crypto_scalper.Agents.Manager.{
  adjust, approve, veto, ManagerAction, ManagerProposal, is_veto, ManagerVerdict,
}
use crypto_scalper.Agents.Execution.{agent_config, Desk, settle, Effect, on_tick, placed}

module _ {F : Type 0} ⦃f : Float F⦄ where
  -- The size of an entry: that of the proposal, times the manager's multiplier where it adjusts.
  abbrev pub size_entered : ManagerProposal F → ManagerAction F → F
  size_entered p approve = p.size
  size_entered p (veto reason) = p.size
  size_entered p (adjust size_multiplier sl_offset_bps tp_offset_bps reason) =
      p.size ⊗ size_multiplier

module _ {F T : Type 0} ⦃f : Float F⦄ ⦃t : Time T⦄ where
  -- What stands open when an entry is placed.
  pub record IsOpenTo (honor_survival : Bool) (v : ManagerVerdict F) (d : Desk F T) : Type 0 where
    pub no_veto : is_veto v.action ≡ false
    pub entry_positive : (v.proposal.entry ≤? nought) ≡ false
    pub size_positive : (v.proposal.size ≤? nought) ≡ false
    pub survives : honor_survival ≡ true → is_closed_to d.survival ≡ false
    pub not_tripped : d.risk.tripped ≡ false
    pub not_frozen : d.risk.frozen ≡ false

  declines-IsOpenTo :
      (honor_survival : Bool) (v : ManagerVerdict F) (d : Desk F T)
      → (declines honor_survival v d ≡ false) ↔ IsOpenTo honor_survival v d
  unfolding declines is_blocked
  declines-IsOpenTo honor_survival v d = (λ h. ground arith, λ o. ground arith)

  abbrev pub acts : List (Effect F T) → Bool
  acts [] = false
  acts (e ∷ es) = true

  -- The agent reacts to a verdict exactly when it is no veto, its entry and size are not at or below
  -- zero, the survival mode, where it is honored, is neither frozen nor dead, and the risk manager is
  -- neither tripped nor frozen. Otherwise nothing is placed and nothing changes.
  pub on_verdict-acts_iff :
      (honor_survival : Bool) (naming : Naming F T) (place : PlaceOrder F) (now : T)
      (v : ManagerVerdict F) (d : Desk F T)
      → ((acts (on_verdict honor_survival naming place now v d).1 ≡ true)
          ↔ IsOpenTo honor_survival v d)
        × (acts (on_verdict honor_survival naming place now v d).1 ≡ false
            → (on_verdict honor_survival naming place now v d).0 ≡ d)
  unfolding on_verdict
  on_verdict-acts_iff honor_survival naming place now v d =
      let open_iff = declines-IsOpenTo honor_survival v d in
      ((λ h. open_iff.0 (ground arith), λ o. ground (arith, open_iff.1 o)), λ h. ground arith)

  -- An effect that is no order.
  abbrev pub IsNoOrder : Effect F T → Type 0
  IsNoOrder (placed req) = ⊥
  IsNoOrder _ = Unit {0}

  settle-IsNoOrder :
      (price : F) (exits : List (Position F T × PositionExitReason)) (d : Desk F T)
      → All IsNoOrder (settle price exits d).1
  unfolding settle
  settle-IsNoOrder price [] d = tt
  settle-IsNoOrder price ((p, why) ∷ exits) d = (tt, (tt, settle-IsNoOrder price exits _))

  on_tick-IsNoOrder :
      (now : T) (symbol : String) (price : F) (d : Desk F T)
      → All IsNoOrder (on_tick now symbol price d).1
  unfolding on_tick
  on_tick-IsNoOrder now symbol price d = elim (Bool-cases (price ≤? nought)) [
    | inl low ↦ rw low tt
    | inr high ↦
        rw high (settle-IsNoOrder price (check_exits symbol price agent_config now d.book).1 _)
  ]

  on_tick-drops :
      (now : T) (symbol : String) (price : F) (d : Desk F T) (id : String)
      → IsDistinct d.book
      → (price ≤? nought) ≡ false
      → lookup id (on_tick now symbol price d).0.book
        ≡ survives symbol agent_config now price (lookup id d.book)
  unfolding on_tick
  on_tick-drops now symbol price d id u h = rw h (
      ap (lookup id) (settle-book price (check_exits symbol price agent_config now d.book).1 _)
      ∙ lookup-check_exits symbol price agent_config now id d.book u)

  -- A position that the rules close at a tick leaves the book, and the tick sends no order to the
  -- exchange; book ids are distinct and the price is not at or below zero.
  pub tick_abandons :
      (now : T) (symbol : String) (price : F) (d : Desk F T) (id : String) (p : Position F T)
      → IsDistinct d.book
      → (price ≤? nought) ≡ false
      → lookup id d.book ≡ some p
      → survivor (outcome symbol agent_config now price p) ≡ none
      → (lookup id (on_tick now symbol price d).0.book ≡ none)
        × All IsNoOrder (on_tick now symbol price d).1
  tick_abandons now symbol price d id p u h e x =
      (on_tick-drops now symbol price d id u h ∙ (rw e x), on_tick-IsNoOrder now symbol price d)

  -- A position of a proposal, as it is opened at an instant and a price.
  pub record IsEntered (now : T) (p : ManagerProposal F) (price size : F) (x : Position F T)
      : Type 0 where
    pub symbol : x.symbol ≡ p.symbol
    pub side : x.side ≡ p.side
    pub whole : x.size ≡ size
    pub entry : x.entry_price ≡ price
    pub peak : x.peak_price ≡ price
    pub trough : x.trough_price ≡ price
    pub since : x.opened_at ≡ now
    pub untouched : (x.trailing_activated ≡ false) × (x.breakeven_activated ≡ false)

  new_position-IsEntered :
      (naming : Naming F T) (now : T) (v : ManagerVerdict F) (price : F)
      → IsEntered now v.proposal price
          (size_entered v.proposal v.action)
          (new_position now (entry_request naming now v) price)
  unfolding new_position entry_request terms
  new_position-IsEntered naming now v price = record {
    symbol = ground arith;
    side = ground arith;
    whole = ground arith;
    entry = refl;
    peak = refl;
    trough = refl;
    since = refl;
    untouched = (refl, refl);
  }

  -- An acknowledgement without a fill price opens a position under the id of the proposal: its size is
  -- the whole size of the entry, adjusted by the manager or not, and its price the proposed entry,
  -- whatever quantity was filled. The risk manager counts it. The proposed entry is not at or below
  -- zero.
  pub unfilled_opens :
      (naming : Naming F T) (now : T) (v : ManagerVerdict F) (ack : OrderAck F) (d : Desk F T)
      → (nought <? ack.avg_fill_price) ≡ false
      → (v.proposal.entry ≤? nought) ≡ false
      → let after = (on_answer now (entry_request naming now v) (ok ack) d).0 in
        (x : Position F T) × (lookup (client_id_of naming now v.proposal) after.book ≡ some x)
        × IsEntered now v.proposal v.proposal.entry (size_entered v.proposal v.action) x
        × (after.risk.open_positions ≡ (d.risk.open_positions + 1) % 2 ^ 32)
  unfolding on_answer fill_price_of price_or entry_request on_fill open_position new_position
      on_position_opened
  unfilled_opens naming now v ack d h e = (
    new_position now (entry_request naming now v) v.proposal.entry,
    rw (h, e) (lookup-insert_self (client_id_of naming now v.proposal) _ d.book),
    new_position-IsEntered naming now v v.proposal.entry,
    rw (h, e) refl,
  )
