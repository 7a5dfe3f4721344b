-- ===== src/Tests/Held.antt =====
-- A connection of src/txn.rs whose BEGIN is never answered.
use task_db.Prelude.{ℕ, zero, suc, ◌≤◌, Bool, true, false, ◌≡◌, refl, arith}
use task_db.Txn.Held.{
  Conn, Held, Sqlx, Reachable, first, next, borrowed, begins, engine_begins, begin_is_answered,
  drop_held, Clean, dropped-Clean, acquired_conn, begin_sent, sent, on_conn,
}

abbrev idle : Conn
idle = record { in_flight = false; in_transaction = false; depth = 0 }

abbrev rolled_back : ℕ → Bool → Bool
rolled_back zero held_open = held_open
rolled_back (suc n) held_open = false

rolled_back-counted : (n : ℕ) (b : Bool) → 1 ≤ n → rolled_back n b ≡ false
rolled_back-counted zero b h = absurd (omega (arith, h))
rolled_back-counted (suc n) b h = refl

rolled_back-idle : (n : ℕ) (b : Bool) → b ≡ false → rolled_back n b ≡ false
rolled_back-idle zero b h = h
rolled_back-idle (suc n) b h = refl

-- A transaction that it does not count stays open.
abbrev lax : Sqlx
lax = record {
  returned_conn = λ c. record {
    in_flight = c.in_flight;
    in_transaction = rolled_back c.depth c.in_transaction;
    depth = 0;
  };
  forgets = λ c. refl;
  rolls_back = λ c. rolled_back-counted c.depth c.in_transaction;
  leaves_idle = λ c. rolled_back-idle c.depth c.in_transaction;
  sends_nothing = λ c h. h;
}

-- The first borrower is dropped within its transaction, and the second before its BEGIN is answered.
abbrev held_twice : Held
held_twice = record {
  conn = record { in_flight = true; in_transaction = true; depth = 0 };
  armed = true;
}

abbrev once : Held
once = acquired_conn idle

abbrev asked : Held
asked = on_conn sent (begin_sent once)

abbrev within : Held
within = record {
  conn = record { in_flight = false; in_transaction = true; depth = 1 };
  armed = false;
}

held_open : Reachable lax within
held_open =
    next (next (next first (begins once refl refl)) (engine_begins asked refl))
      (begin_is_answered held_twice refl refl)

twice-Reachable : Reachable lax held_twice
twice-Reachable =
    next (next (borrowed held_open refl) (begins once refl refl)) (engine_begins asked refl)

dropped-Clean_example : Clean (drop_held lax held_twice)
dropped-Clean_example = dropped-Clean lax twice-Reachable
