-- ===== src/Chip/Back.antt =====
-- The reads of the six registers that `snapshot_chip` writes.
use a1625_linux_winboot.Prelude.{
  ℕ, ◌+◌, ◌≡◌, ◌≢◌, refl, sym, ◌∙◌, Bool, true, false, not, ◌||◌, ◌==◌, if◌then◌else◌, ℤ, neg, eio,
  Option, none, some, arith,
}
use a1625_linux_winboot.Kernel.{
  Op, Ans, Prog, ret, call, Monitor, Ensures, ◌>>◌, iounmap, bind, branch, mono, both,
}
use a1625_linux_winboot.Endpoint.{ep}
use a1625_linux_winboot.Chip.{
  Saved, bar, bar_low, bar_high, backplane, bridge_window, rc_command, ep_command, touched,
  check_back, put_back, read_saved, pristine, probed, known, snapshot_chip,
}

-- What was read of each address: the first time, and last since it was written.
pub record Reads : Type 0 where
  pub first : ℕ → Option ℕ
  pub last : ℕ → Option ℕ

abbrev or_else : Option ℕ → Option ℕ → Option ℕ
or_else none d = d
or_else (some v) d = some v

abbrev pub note : ℕ → ℕ → Reads → Reads
note a v s = record {
  first = λ b. if a == b then or_else (s.first b) (some v) else s.first b;
  last = λ b. if a == b then some v else s.last b;
}

abbrev forget : ℕ → Reads → Reads
forget a s = record s { last = λ b. if a == b then none else s.last b }

abbrev next : Reads → (o : Op) → Ans o → Reads
next s (Op.readw a) r = note a r s
next s (Op.readl a) r = note a r s
next s (Op.writew v a) r = forget a s
next s (Op.writel v a) r = forget a s
next s _ r = s

-- Nothing is trusted: the monitor only takes down the reads.
abbrev pub ReadBack : Monitor
ReadBack = record { State = Reads; next = next; Permits = λ s o. Unit; Answers = λ s o r. Unit }

-- The last read of the register at `a` found what the first one found, or there was none.
abbrev Same : Reads → ℕ → Type 0
Same s a = s.last a ≡ s.first a

abbrev pub AllSame : Reads → Type 0
AllSame s =
    Same s bar_low
    × Same s bar_high
    × Same s backplane
    × Same s bridge_window
    × Same s rc_command
    × Same s ep_command

-- The first reads found the saved values.
record First (v : Saved) (s : Reads) : Type 0 where
  low : s.first bar_low ≡ some v.low
  high : s.first bar_high ≡ some v.high
  window : s.first backplane ≡ some v.window
  mem : s.first bridge_window ≡ some v.mem
  rc_cmd : s.first rc_command ≡ some v.rc_cmd
  ep_cmd : s.first ep_command ≡ some v.ep_cmd

pub note-first : (a b v w : ℕ) (s : Reads) → s.first b ≡ some w → (note a v s).first b ≡ some w
note-first a b v w s h = rw h (by_place (a == b))
  where
    by_place : (here : Bool) → (if here then some w else some w) ≡ some w
    by_place true = refl
    by_place false = refl

note-First : (a r : ℕ) (v : Saved) (s : Reads) → First v s → First v (note a r s)
note-First a r v s h = record {
  low = note-first a bar_low r v.low s h.low;
  high = note-first a bar_high r v.high s h.high;
  window = note-first a backplane r v.window s h.window;
  mem = note-first a bridge_window r v.mem s h.mem;
  rc_cmd = note-first a rc_command r v.rc_cmd s h.rc_cmd;
  ep_cmd = note-first a ep_command r v.ep_cmd s h.ep_cmd;
}

forget-First : (a : ℕ) (v : Saved) (s : Reads) → First v s → First v (forget a s)
forget-First a v s h = record {
  low = h.low;
  high = h.high;
  window = h.window;
  mem = h.mem;
  rc_cmd = h.rc_cmd;
  ep_cmd = h.ep_cmd;
}

next-First : (v : Saved) (s : Reads) (o : Op) (r : Ans o) → First v s → First v (next s o r)
next-First v s (Op.readw a) r h = note-First a r v s h
next-First v s (Op.readl a) r h = note-First a r v s h
next-First v s (Op.writew w a) r h = forget-First a v s h
next-First v s (Op.writel w a) r h = forget-First a v s h
next-First v s _ r h = h

-- The first reads stay the first.
any-First :
    {A : Type 0} (v : Saved) (p : Prog A) (s : Reads)
    → First v s
    → Ensures ReadBack p (λ _ t. First v t) s
any-First v (ret a) s h = h
any-First v (call o k) s h = (tt, λ r _. any-First v (k r) _ (next-First v s o r h))

-- Nothing was read or written.
abbrev pub untouched : Reads
untouched = record { first = λ a. none; last = λ a. none }

-- A code other than -EIO says that all is back.
abbrev pub Back : ℤ → Reads → Type 0
Back r s = r ≢ neg eio → AllSame s

read_saved-First : Ensures ReadBack read_saved (λ v t. First v t × AllSame t) untouched
unfolding read_saved
read_saved-First = ground arith

-- What the six registers were read as last.
record LastRead (v : Saved) (s : Reads) : Type 0 where
  low : s.last bar_low ≡ some v.low
  high : s.last bar_high ≡ some v.high
  window : s.last backplane ≡ some v.window
  mem : s.last bridge_window ≡ some v.mem
  rc_cmd : s.last rc_command ≡ some v.rc_cmd
  ep_cmd : s.last ep_command ≡ some v.ep_cmd

check_back-LastRead :
    (v : Saved) (r : ℤ) (s : Reads)
    → Ensures ReadBack (check_back v r) (λ q t. q ≢ neg eio → LastRead v t) s
unfolding check_back
check_back-LastRead v r s = ground arith

First-LastRead : (v : Saved) (s : Reads) → First v s → LastRead v s → AllSame s
First-LastRead v s f l = (
  l.low ∙ sym f.low,
  l.high ∙ sym f.high,
  l.window ∙ sym f.window,
  l.mem ∙ sym f.mem,
  l.rc_cmd ∙ sym f.rc_cmd,
  l.ep_cmd ∙ sym f.ep_cmd,
)

put_back-Back : (v : Saved) (r : ℤ) (s : Reads) → First v s → Ensures ReadBack (put_back v r) Back s
unfolding put_back
put_back-Back v r s f = (
  tt,
  λ _ _. (
    tt,
    λ _ _. (
      tt,
      λ _ _. (
        tt,
        λ _ _. (
          tt,
          λ _ _. (
            tt,
            λ _ _.
                let start = forget bridge_window (
                  forget bar_low (
                    forget bar_high
                      (forget backplane (forget rc_command (forget ep_command s))))) in
                mono ReadBack (λ q t. (q ≢ neg eio → LastRead v t) × First v t) Back
                  (check_back v r) start
                  (both ReadBack (λ q t. q ≢ neg eio → LastRead v t) (λ _ t. First v t)
                    (check_back v r) start (check_back-LastRead v r start)
                    (any-First v (check_back v r) start (record {
                      low = f.low;
                      high = f.high;
                      window = f.window;
                      mem = f.mem;
                      rc_cmd = f.rc_cmd;
                      ep_cmd = f.ep_cmd;
                    })))
                  (λ q t k ne. First-LastRead v t k.1 (k.0 ne)),
          ),
        ),
      ),
    ),
  ),
)

probed-Back :
    (inspect_erom : Bool) (v : Saved) (s : Reads)
    → First v s
    → Ensures ReadBack (probed inspect_erom v) Back s
unfolding probed
probed-Back inspect_erom v s f =
    bind ReadBack (λ _ t. First v t) Back (touched inspect_erom v) _ s
      (any-First v (touched inspect_erom v) s f)
      λ (r, mapped) t f.
        bind ReadBack Back Back (put_back v r) _ t (put_back-Back v r t f)
          λ q u k. unmapped mapped q u k
  where
    unmapped :
        (mapped : Bool) (q : ℤ) (u : Reads)
        → Back q u
        → Ensures ReadBack (do if mapped then iounmap bar else ret tt; ret q) Back u
    unmapped true q u k = (tt, λ _ _. k)
    unmapped false q u k = k

known-Back :
    (inspect_erom : Bool) (v : Saved) (s : Reads)
    → First v s
    → AllSame s
    → Ensures ReadBack (known inspect_erom v) Back s
unfolding known
known-Back inspect_erom v s f same = (
  tt,
  λ id _.
      branch ReadBack Back (not (id == 0x43a3_14e4)) _ _ (note ep id s) (λ _ _. same)
        λ _. (
          tt,
          λ c _.
              branch ReadBack Back (not (c == 0x0280_0008) || not (pristine v)) _ _
                (note (ep + 8) c (note ep id s)) (λ _ _. same)
                λ _.
                  probed-Back inspect_erom v _ (note-First (ep + 8) c v _ (note-First ep id v s f)),
        ),
)

-- Whatever the registers read as, when `snapshot_chip` returns another code than -EIO each of BAR0's
-- two halves, the backplane window, the bridge's memory window and the two command registers was
-- read, after the last write to it, with the value that it had at first; or nothing was accessed.
pub snapshot_chip-Back :
    (inspect_erom : Bool)
    → Ensures ReadBack (snapshot_chip inspect_erom) (λ r s. r ≢ neg eio → AllSame s) untouched
unfolding snapshot_chip
snapshot_chip-Back inspect_erom = (
  tt,
  elim [
    | false ↦ λ _ _. (refl, refl, refl, refl, refl, refl)
    | true ↦ λ _.
        bind ReadBack (λ v t. First v t × AllSame t) Back read_saved _ untouched read_saved-First
          λ v t k.
            bind ReadBack Back Back (known inspect_erom v) _ t (known-Back inspect_erom v t k.0 k.1)
              (λ q u b. (tt, λ _ _. b))
  ],
)
