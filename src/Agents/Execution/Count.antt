-- ===== src/Agents/Execution/Count.antt =====
-- The risk manager's counter of open positions and the book, over the events of
-- src/agents/execution.rs.
use crypto_scalper.Prelude.{
  ◌+◌, ◌^◌, ◌≤◌, ◌<◌, String, ◌≡◌, refl, sym, ◌∙◌, inl, inr, List, [], ◌∷◌, arith, Bool-cases,
  string_eq, length, All,
}
use crypto_scalper.Prelude.Dict.{insert, IsDistinct, insert-IsDistinct, length-insert}
use crypto_scalper.Float.{Float, ◌≤?◌, nought}
use crypto_scalper.Time.{Time}
use crypto_scalper.Execution.Orders.{OrderAck, OrderRequest}
use crypto_scalper.Agents.Execution.Entry.{new_position, on_fill}
use crypto_scalper.Execution.Position.Ids.{outcome-id}
use crypto_scalper.Execution.Position.Book.{changed}
use crypto_scalper.Execution.Position.Kept.{
  check_exits-count, kept-IsDistinct, check_exits-kept, push_kept, kept,
}
use crypto_scalper.Execution.Risk.{RiskManager}
use crypto_scalper.Agents.Execution.{agent_config, on_tick, settle, Desk}
use crypto_scalper.Execution.Risk
use crypto_scalper.Execution.Position.{
  open_position, pnl_usd, outcome, check_exits, Outcome, PositionExitReason, Book, PositionConfig,
  Position, keep, exit,
}

module _ {F T : Type 0} where
  -- Each position stands under its own id.
  abbrev pub IsKeyed : Book F T → Type 0
  IsKeyed = All (λ (id, p). id ≡ p.client_id)

  -- The book is keyed with no id twice, and no larger than the counter.
  pub record IsCounted (d : Desk F T) : Type 0 where
    pub distinct : IsDistinct d.book
    pub keyed : IsKeyed d.book
    pub counted : length d.book ≤ d.risk.open_positions

module _ {F : Type 0} ⦃f : Float F⦄ where
  closed-count :
      (pnl : F) (i : RiskManager F)
      → i.open_positions ≤ (Risk.on_position_closed pnl i).open_positions + 1
  unfolding Risk.on_position_closed Risk.book_pnl Risk.trip_on_drawdown Risk.trip_on_daily_loss
  closed-count pnl i = ground arith

  pub closed-le :
      (pnl : F) (i : RiskManager F)
      → (Risk.on_position_closed pnl i).open_positions ≤ i.open_positions
  unfolding Risk.on_position_closed Risk.book_pnl Risk.trip_on_drawdown Risk.trip_on_daily_loss
  closed-le pnl i = ground arith

module _ {F T : Type 0} ⦃f : Float F⦄ ⦃t : Time T⦄ where
  pub settle-book :
      (price : F) (exits : List (Position F T × PositionExitReason)) (d : Desk F T)
      → (settle price exits d).0.book ≡ d.book
  unfolding settle
  settle-book price [] d = refl
  settle-book price ((p, why) ∷ exits) d = settle-book price exits _

  settle-le :
      (price : F) (exits : List (Position F T × PositionExitReason)) (d : Desk F T)
      → (settle price exits d).0.risk.open_positions ≤ d.risk.open_positions
  unfolding settle
  settle-le price [] d = omega arith
  settle-le price ((p, why) ∷ exits) d = omega (
    arith,
    closed-le (pnl_usd p price) d.risk,
    settle-le price exits (record d { risk = Risk.on_position_closed (pnl_usd p price) d.risk }),
  )

  settle-count :
      (price : F) (exits : List (Position F T × PositionExitReason)) (d : Desk F T)
      → d.risk.open_positions ≤ (settle price exits d).0.risk.open_positions + length exits
  unfolding settle
  settle-count price [] d = omega arith
  settle-count price ((p, why) ∷ exits) d = omega (
    arith,
    closed-count (pnl_usd p price) d.risk,
    settle-count price exits (record d { risk = Risk.on_position_closed (pnl_usd p price) d.risk }),
  )

module _ {F T : Type 0} ⦃f : Float F⦄ ⦃t : Time T⦄ (symbol : String) (cfg : PositionConfig F)
    (now : T) (price : F) where
  push_kept-IsKeyed :
      (id : String) (o : Outcome F T) (k : Book F T)
      → id ≡ (changed o).client_id
      → IsKeyed k
      → IsKeyed (push_kept symbol cfg now price id o k)
  push_kept-IsKeyed id (keep p) k e d = (e, d)
  push_kept-IsKeyed id (exit p why) k e d = d

  kept-IsKeyed : (m : Book F T) → IsKeyed m → IsKeyed (kept symbol cfg now price m)
  kept-IsKeyed [] d = tt
  kept-IsKeyed ((id, p) ∷ m) (e, d) =
      push_kept-IsKeyed id (outcome symbol cfg now price p) (kept symbol cfg now price m)
        (e ∙ sym (outcome-id cfg symbol now price p)) (kept-IsKeyed m d)

module _ {F T : Type 0} where
  insert-IsKeyed :
      (id : String) (p : Position F T) (m : Book F T)
      → id ≡ p.client_id
      → IsKeyed m
      → IsKeyed (insert id p m)
  unfolding insert
  insert-IsKeyed id p [] e d = (e, tt)
  insert-IsKeyed id p ((j, q) ∷ m) e (h, d) = ground (arith, insert-IsKeyed id p m e d)

module _ {F T : Type 0} ⦃f : Float F⦄ ⦃t : Time T⦄ where
  settle-IsCounted :
      (price : F) (exits : List (Position F T × PositionExitReason)) (d : Desk F T)
      → IsDistinct d.book
      → IsKeyed d.book
      → length d.book + length exits ≤ d.risk.open_positions
      → IsCounted (settle price exits d).0
  settle-IsCounted price exits d u k n = record {
    distinct = rw (settle-book price exits d) u;
    keyed = rw (settle-book price exits d) k;
    counted = rw (settle-book price exits d) (omega (arith, settle-count price exits d));
  }

  settled :
      (now : T) (symbol : String) (price : F) (d : Desk F T)
      → IsCounted d
      → IsCounted
          (settle price (check_exits symbol price agent_config now d.book).1 (record d {
            book = (check_exits symbol price agent_config now d.book).0;
            last_marks = insert symbol price d.last_marks;
          })).0
  settled now symbol price d c =
      let same = check_exits-kept symbol agent_config now price d.book c.distinct in
      settle-IsCounted price _ _
        (rw same (kept-IsDistinct symbol agent_config now price d.book c.distinct))
        (rw same (kept-IsKeyed symbol agent_config now price d.book c.keyed))
        (rw same (omega (arith, check_exits-count symbol agent_config now price d.book, c.counted)))

  pub on_tick-IsCounted :
      (now : T) (symbol : String) (price : F) (d : Desk F T)
      → IsCounted d
      → IsCounted (on_tick now symbol price d).0
  unfolding on_tick
  on_tick-IsCounted now symbol price d c = elim (Bool-cases (price ≤? nought)) [
    | inl low ↦ rw low c
    | inr high ↦ rw high (settled now symbol price d c)
  ]

  pub on_tick-le :
      (now : T) (symbol : String) (price : F) (d : Desk F T)
      → (on_tick now symbol price d).0.risk.open_positions ≤ d.risk.open_positions
  unfolding on_tick
  on_tick-le now symbol price d = ground (
    arith,
    settle-le price (check_exits symbol price agent_config now d.book).1 (record d {
      book = (check_exits symbol price agent_config now d.book).0;
      last_marks = insert symbol price d.last_marks;
    }),
  )

  -- A fill puts one position into the book and one on the counter.
  pub on_fill-IsCounted :
      (now : T) (req : OrderRequest F) (ack : OrderAck F) (fill_price : F) (d : Desk F T)
      → d.risk.open_positions + 1 < 2 ^ 32
      → IsCounted d
      → IsCounted (on_fill now req ack fill_price d).0
  unfolding on_fill open_position new_position Risk.on_position_opened
  on_fill-IsCounted now req ack fill_price d b c = record {
    distinct = insert-IsDistinct req.client_id _ d.book c.distinct;
    keyed = insert-IsKeyed req.client_id _ d.book refl c.keyed;
    counted = omega (arith, length-insert req.client_id (new_position now req fill_price) d.book);
  }
