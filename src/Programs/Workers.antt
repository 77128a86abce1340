-- ===== src/Programs/Workers.antt =====
-- The threads at the host's side of the serial port: `serial_thread` of examples/k/main.c and
-- examples/linux/main.c, `worker0` and `worker1` of examples/guests/main.c. Each loops for ever; what it
-- does in so many rounds is a function of their number.
use blackhv.Base.{
  ℕ, zero, suc, ◌+◌, ◌-◌, ◌≤◌, ◌<◌, min, ◌≡◌, refl, sym, ap, ◌∙◌, ◌⊎◌, inl, inr, Option, some, List,
  [], ◌∷◌, ◌++◌, append_assoc, append-nil, arith, ◌==◌, if◌then◌else◌, length, get_elem?, take,
  drop, length-append, take-append_take, take_all, drop_all, ◌>>=◌, access, Returns-bind, Exec,
  Returns, ok, returns,
}
use blackhv.Serial.{Serial, serial_read, serial_write}
use blackhv.Serial.Registers.{Carries}
use blackhv.Serial.Streams.{serial_read-take, serial_write-append}

-- What "%.*s" prints of an array: the bytes before the first zero, `r` of them at most.
abbrev pub until_zero : List ℕ → List ℕ
until_zero [] = []
until_zero (b ∷ bs) = if b == 0 then [] else b ∷ until_zero bs

-- `serial_thread`, whose array of 1024 bytes keeps its content from round to round.
unfoldable pub serial_thread :
    (rounds : ℕ) → Option Serial → (buffer : List ℕ) → Exec (List ℕ × Option Serial × List ℕ)
unfolding serial_read
serial_thread zero serial buffer = ok ([], serial, buffer)
serial_thread (suc n) serial buffer = do
  (r, out, serial') ← serial_read serial (some buffer) 1024
  buffer' ← access out
  (printed, serial'', buffer'') ← serial_thread n serial' buffer'
  ok (until_zero (take r buffer') ++ printed, serial'', buffer'')

-- `worker1`: `c` is not set before the first byte is read.
unfoldable pub worker1 : (rounds : ℕ) → Option Serial → (c : ℕ) → Exec (List ℕ × Option Serial)
unfolding serial_read
worker1 zero serial c = ok ([], serial)
worker1 (suc n) serial c = do
  (r, out, serial') ← serial_read serial (some (c ∷ [])) 1
  chars ← access out
  c' ← access (get_elem? chars 0)
  (printed, serial'') ← worker1 n serial' c'
  ok ((if r == 1 then c' ∷ [] else []) ++ printed, serial'')

-- `worker0` on the lines that `getline` gives.
unfoldable pub worker0 : (lines : List (List ℕ)) → Option Serial → Exec (Option Serial)
unfolding serial_write
worker0 [] serial = ok serial
worker0 (line ∷ lines) serial = do
  (written, serial') ← serial_write serial (some line) (length line)
  worker0 lines serial'

abbrev pub all_of : List (List ℕ) → List ℕ
all_of [] = []
all_of (line ∷ lines) = line ++ all_of lines

fits_or_not : (n k : ℕ) → (n ≤ k) ⊎ (k < n)
fits_or_not n k = omega arith

take-min : (k : ℕ) (bs : List ℕ) → take (min k (length bs)) bs ≡ take k bs
take-min k bs = elim (fits_or_not (length bs) k) [
  | inl few ↦
      let m : min k (length bs) ≡ length bs = omega arith in
      rw m (take_all (length bs) bs (omega arith) ∙ sym (take_all k bs few))
  | inr many ↦ let m : min k (length bs) ≡ k = omega arith in rw m refl
]

drop-min : (k : ℕ) (bs : List ℕ) → drop (min k (length bs)) bs ≡ drop k bs
drop-min k bs = elim (fits_or_not (length bs) k) [
  | inl few ↦
      let m : min k (length bs) ≡ length bs = omega arith in
      rw m (drop_all (length bs) bs (omega arith) ∙ sym (drop_all k bs few))
  | inr many ↦ let m : min k (length bs) ≡ k = omega arith in rw m refl
]

-- From a port that carries bytes for the host, so many rounds of `worker1` print the first of
-- them, one a round, in order, and take these from the port.
pub worker1-take :
    (rounds c : ℕ) (serial : Serial) (size : ℕ) (to_host to_guest : List ℕ)
    → Carries serial size to_host to_guest
    → Returns
        (λ (printed, after).
          (printed ≡ take rounds to_host)
          × ((serial' : Serial) × (after ≡ some serial')
              × Carries serial' size (drop rounds to_host) to_guest))
        (worker1 rounds (some serial) c)
unfolding worker1
worker1-take zero c serial size to_host to_guest carries = returns (refl, (serial, refl, carries))
worker1-take (suc n) c serial size [] to_guest carries =
    Returns-bind (serial_read-take serial size [] to_guest (c ∷ []) 1 carries (omega arith))
      λ (r, out, after) (count, got, (serial', is, carries')).
        rw (got, is)
          (Returns-bind (worker1-take n c serial' size [] to_guest carries')
            λ (printed, after') (same, (serial'', is', left)).
              let gone : drop {A = ℕ} n [] ≡ [] = drop_all n [] (omega arith) in
              returns
                (rw count (same ∙ take_all n [] (omega arith)), (serial'', is', rw gone at left)))
worker1-take (suc n) c serial size (b ∷ to_host) to_guest carries =
    Returns-bind
      (serial_read-take serial size (b ∷ to_host) to_guest (c ∷ []) 1 carries (omega arith))
      λ (r, out, after) (count, got, (serial', is, carries')).
        let one : min 1 (length (b ∷ to_host)) ≡ 1 = omega arith in
        rw (got, is, one)
          (Returns-bind (worker1-take n b serial' size to_host to_guest (rw one at carries'))
            λ (printed, after') (same, left).
              returns (rw (count, one) (ap (λ bs. b ∷ bs) same), left))

-- One round of `serial_thread` takes the bytes that wait, 1024 at most, and prints those before the
-- first zero: the bytes behind it are lost.
pub serial_thread-until_zero :
    (serial : Serial) (size : ℕ) (to_host to_guest buffer : List ℕ)
    → Carries serial size to_host to_guest
    → length buffer ≡ 1024
    → Returns
        (λ (printed, after, buffer').
          (printed ≡ until_zero (take 1024 to_host))
          × ((serial' : Serial) × (after ≡ some serial')
              × Carries serial' size (drop 1024 to_host) to_guest))
        (serial_thread 1 (some serial) buffer)
unfolding serial_thread
serial_thread-until_zero serial size to_host to_guest buffer carries long =
    Returns-bind (serial_read-take serial size to_host to_guest buffer 1024 carries (omega arith))
      λ (r, out, after) (count, got, (serial', is, carries')). rw got (
        returns (
          rw
              (
                count,
                take-append_take (min 1024 (length to_host)) to_host
                    (drop (min 1024 (length to_host)) buffer) (omega arith),
              )
              (append-nil _ ∙ ap until_zero (take-min 1024 to_host)),
          (serial', is, rw (drop-min 1024 to_host) at carries'),
        ))

-- Lines that the port has room for all wait for the guest, in order, behind what waited before.
pub worker0-append :
    (lines : List (List ℕ)) (serial : Serial) (size : ℕ) (to_host to_guest : List ℕ)
    → Carries serial size to_host to_guest
    → length to_guest + length (all_of lines) ≤ size
    → Returns
        (λ after.
          (serial' : Serial) × (after ≡ some serial')
          × Carries serial' size to_host (to_guest ++ all_of lines))
        (worker0 lines (some serial))
unfolding worker0
worker0-append [] serial size to_host to_guest carries room =
    returns (serial, refl, rw (append-nil to_guest) carries)
worker0-append (line ∷ lines) serial size to_host to_guest carries room =
    let total : length (line ++ all_of lines) ≡ length line + length (all_of lines) =
      length-append line (all_of lines) in
    let n : min (length line) (size - length to_guest) ≡ length line = omega (arith, total, room) in
    let all : take (length line) line ≡ line = take_all (length line) line (omega arith) in
    Returns-bind
      (serial_write-append serial size to_host to_guest line (length line) carries (omega arith))
      λ (r, after) (count, (serial', is, carries')).
        let joined : length (to_guest ++ line) ≡ length to_guest + length line =
          length-append to_guest line in
        rw is (
          rw (← append_assoc to_guest line (all_of lines)) (
            worker0-append lines serial' size to_host (to_guest ++ line) (rw (n, all) at carries')
              (omega (arith, total, joined, room))))
