-- ===== src/Gamepad/Ring.antt =====
-- The queues of m61_usb_gamepad.c: an array with `..._queue_head`, `..._queue_tail` and `..._queue_count`.
pub mod Contents
use ds5dongle.Prelude.{ℕ, ◌+◌, ◌-◌, ◌%◌, List, get_or, set, u8}

pub record Ring {ℓ} (A : Type ℓ) : Type ℓ where
  pub slots : List A
  pub head : ℕ
  pub tail : ℕ
  pub count : ℕ

module _ {ℓ} {A : Type ℓ} where
  -- The three lines that put an element at the head.
  unfoldable pub put : ℕ → A → Ring A → Ring A
  put depth x r = record r {
    slots = set r.slots r.head x;
    head = u8 ((r.head + 1) % depth);
    count = u8 (r.count + 1);
  }

  -- The two lines that drop the element at the tail.
  unfoldable pub drop_oldest : ℕ → Ring A → Ring A
  drop_oldest depth r = record r { tail = u8 ((r.tail + 1) % depth); count = r.count - 1 }

  -- All three numbers are set to 0.
  unfoldable pub clear : Ring A → Ring A
  clear r = record r { head = 0; tail = 0; count = 0 }

  unfoldable pub oldest : A → Ring A → A
  oldest d r = get_or r.slots r.tail d
