-- ===== src/Gate/Stream.antt =====
-- service-src/service_gate.c with service-src/databuffer.h: the packages that the bytes of a
-- connection complete are forwarded.
use ctkjserver.Base.{
  ℕ, zero, suc, ◌+◌, ◌^◌, ◌≤◌, ◌<◌, ◌≡◌, refl, sym, ap, subst, ◌∙◌, Option, some, true, List, [],
  ◌∷◌, ◌++◌, length, length-append, take, drop, take-append, drop-append, map, ltb, lt→ltb, le→ltb,
  arith,
}
use ctkjserver.Base.Int.{pos, negsuc}
use ctkjserver.Gate.{
  DataBuffer, Action, Route, push, reset, parse_header, package_size, parse, with_header,
  readheader, receiver, forward, dispatch_loop, dispatch_message,
}
use ctkjserver.Gate.Read.{Holds, read_lem, push-Holds}

-- Nothing more can be forwarded: the header, or the package that a header announces, is not
-- whole. `header` is the size that was read already, or 0.
pub data Waits (header_size : ℕ) : (header : ℕ) → List ℕ → Type 0 where
  for_header : {xs : List ℕ} → length xs < header_size → Waits header_size 0 xs
  for_package : {n : ℕ} {xs : List ℕ} → length xs < suc n → Waits header_size (suc n) xs

-- From the bytes `xs`, after a header of size `header` if that is not 0, the packages `ps` come, and
-- then `left` waits behind `header'`. An empty package is skipped; each is shorter than 16M.
pub data Packages (header_size : ℕ)
    : (header : ℕ) (xs : List ℕ) (ps : List (List ℕ)) (header' : ℕ) (left : List ℕ) → Type 0 where
  stop : {h : ℕ} {xs : List ℕ} → Waits header_size h xs → Packages header_size h xs [] h xs
  head :
      {n h : ℕ} {xs left : List ℕ} {ps : List (List ℕ)} (bytes : List ℕ)
      → length bytes ≡ header_size
      → parse_header header_size bytes ≡ pos n
      → n < 2 ^ 24
      → Packages header_size n xs ps h left
      → Packages header_size 0 (bytes ++ xs) ps h left
  body :
      {n h : ℕ} {xs left : List ℕ} {ps : List (List ℕ)} (p : List ℕ)
      → length p ≡ suc n
      → suc n < 2 ^ 24
      → Packages header_size 0 xs ps h left
      → Packages header_size (suc n) (p ++ xs) (p ∷ ps) h left

module _ (route : Route) (header_size : ℕ) (action : List ℕ → Action)
    (there : receiver route ≡ some action) (some_size : 0 < header_size) where
  -- What the loop leaves: the packages as actions, and the rest in the buffer.
  pub record Forwarded (ps : List (List ℕ)) (h : ℕ) (left : List ℕ)
      (result : Option (List Action × DataBuffer)) : Type 0 where
    pub buffer : DataBuffer
    pub returns : result ≡ some (map action ps, buffer)
    pub holds : Holds buffer left
    pub header : buffer.header ≡ pos h

  known :
      (n : ℕ) (db : DataBuffer)
      → db.header ≡ pos (suc n)
      → suc n ≤ db.size
      → readheader db header_size ≡ some (pos (suc n), db)
  unfolding with_header package_size
  known n db e l =
      ap (λ z. with_header z db header_size) e
      ∙ ap (λ z. some (z, db)) (rw (package_size, le→ltb db.size (suc n) l) refl)

  forward_lem :
      (n : ℕ) (p xs : List ℕ) (db : DataBuffer)
      → length p ≡ suc n
      → Holds db (p ++ xs)
      → (db' : DataBuffer) × (forward route db (suc n) ≡ some (action p ∷ [], db')) × Holds db' xs
  unfolding forward
  forward_lem n p xs db size holds =
      let long = length-append p xs in
      let (db', done, rest, same) =
        read_lem db (p ++ xs) (suc n) holds (omega arith) (omega arith) in
      let tail : drop (suc n) (p ++ xs) ≡ xs =
        ap (λ k. drop k (p ++ xs)) (sym size) ∙ drop-append p xs in
      let front : take (suc n) (p ++ xs) ≡ p =
        ap (λ k. take k (p ++ xs)) (sym size) ∙ take-append p xs in
      (
        db',
        rw (forward, there, done) (ap (λ t. some (action t ∷ [], db')) front),
        subst (Holds db') tail rest,
      )

  -- A package whose header is known.
  whole :
      (f n h : ℕ) (p xs left : List ℕ) (ps : List (List ℕ)) (db : DataBuffer)
      → length p ≡ suc n
      → suc n < 2 ^ 24
      → Holds db (p ++ xs)
      → db.header ≡ pos (suc n)
      → ((next : DataBuffer)
          → Holds next xs
          → next.header ≡ pos 0
          → Forwarded ps h left (dispatch_loop f route header_size next))
      → Forwarded (p ∷ ps) h left (dispatch_loop (suc f) route header_size db)
  unfolding dispatch_loop
  whole f n h p xs left ps db size small holds header go =
      let (db', sent, rest) = forward_lem n p xs db size holds in
      let after : Holds (reset db') xs = record {
        placed = rest.placed;
        bytes = rest.bytes;
        size = rest.size;
      } in
      let next = go (reset db') after refl in
      record {
        buffer = next.buffer;
        returns =
            rw
              (
                dispatch_loop,
                known n db header (omega (arith, holds.size, length-append p xs)),
                lt→ltb (suc n) 0x1000000 small,
                sent,
                next.returns,
              )
              refl;
        holds = next.holds;
        header = next.header;
      }

  -- What `databuffer_readheader` does with a header that is there.
  header_lem :
      (n : ℕ) (bytes xs : List ℕ) (db : DataBuffer)
      → length bytes ≡ header_size
      → parse_header header_size bytes ≡ pos n
      → Holds db (bytes ++ xs)
      → db.header ≡ pos 0
      → (db' : DataBuffer) × Holds db' xs
        × (db'.header ≡ pos n)
        × (readheader db header_size ≡ some (package_size db' (pos n), db'))
  unfolding with_header parse
  header_lem n bytes xs db size value holds header =
      let long = length-append bytes xs in
      let (db', done, rest, same) =
        read_lem db (bytes ++ xs) header_size holds some_size (omega arith) in
      let tail : drop header_size (bytes ++ xs) ≡ xs =
        ap (λ k. drop k (bytes ++ xs)) (sym size) ∙ drop-append bytes xs in
      let front : take header_size (bytes ++ xs) ≡ bytes =
        ap (λ k. take k (bytes ++ xs)) (sym size) ∙ take-append bytes xs in
      let rest' = subst (Holds db') tail rest in
      let db1 : DataBuffer = record db' { header = pos n } in
      (
        db1,
        record { placed = rest'.placed; bytes = rest'.bytes; size = rest'.size },
        refl,
        ap (λ z. with_header z db header_size) header
            ∙ rw (parse, le→ltb db.size header_size (omega (arith, holds.size)), done)
                (ap
                  (λ z.
                    some (package_size (record db' { header = z }) z, record db' { header = z }))
                  (ap (parse_header header_size) front ∙ value)),
      )

  -- With the same header and buffer after `readheader`, a round goes on in the same way.
  same_round :
      (f : ℕ) (db db' : DataBuffer)
      → readheader db header_size ≡ readheader db' header_size
      → dispatch_loop (suc f) route header_size db ≡ dispatch_loop (suc f) route header_size db'
  unfolding dispatch_loop
  same_round f db db' e = rw (dispatch_loop, e) refl

  -- An empty package is skipped.
  empty_round :
      (f : ℕ) (db db' : DataBuffer)
      → readheader db header_size ≡ some (pos 0, db')
      → dispatch_loop (suc f) route header_size db ≡ dispatch_loop f route header_size db'
  unfolding dispatch_loop
  empty_round f db db' e = rw (dispatch_loop, e) refl

  short :
      (h : ℕ) (xs : List ℕ) (db : DataBuffer)
      → Waits header_size h xs
      → Holds db xs
      → db.header ≡ pos h
      → readheader db header_size ≡ some (negsuc 0, db)
  unfolding with_header package_size parse
  short h xs db (for_header l) holds header =
      let less : ltb db.size header_size ≡ true =
        lt→ltb db.size header_size (omega (arith, holds.size)) in
      let none_yet : parse db header_size ≡ some (negsuc 0, db) = rw (parse, less) refl in
      ap (λ z. with_header z db header_size) header ∙ none_yet
  short h xs db (for_package {n = n} l) holds header =
      let less : ltb db.size (suc n) ≡ true = lt→ltb db.size (suc n) (omega (arith, holds.size)) in
      let none_yet : package_size db (pos (suc n)) ≡ negsuc 0 = rw (package_size, less) refl in
      ap (λ z. with_header z db header_size) header ∙ ap (λ z. some (z, db)) none_yet

  waiting :
      (f h : ℕ) (xs : List ℕ) (db : DataBuffer)
      → Waits header_size h xs
      → Holds db xs
      → db.header ≡ pos h
      → Forwarded [] h xs (dispatch_loop (suc f) route header_size db)
  unfolding dispatch_loop
  waiting f h xs db w holds header = record {
    buffer = db;
    returns = rw (dispatch_loop, short h xs db w holds header) refl;
    holds = holds;
    header = header;
  }

  -- The loop forwards what the bytes complete.
  loop_lem :
      (f : ℕ) {h : ℕ} {xs : List ℕ} {ps : List (List ℕ)} {h' : ℕ} {left : List ℕ}
      → Packages header_size h xs ps h' left
      → length xs < f
      → (db : DataBuffer) → Holds db xs
      → db.header ≡ pos h
      → Forwarded ps h' left (dispatch_loop f route header_size db)
  unfolding package_size with_header
  loop_lem zero packages l db holds header = absurd (omega arith)
  loop_lem (suc f) (stop {h = h} {xs = xs} w) l db holds header = waiting f h xs db w holds header
  loop_lem (suc f) (body {n = n} {h = h'} {xs = xs} {left = left} {ps = ps} p size small rest) l db
        holds header =
      whole f n h' p xs left ps db size small holds header
        (λ next at z. loop_lem f rest (omega (arith, length-append p xs)) next at z)
  loop_lem (suc f)
        (head {n = zero} {h = h'} {xs = xs} {left = left} {ps = ps} bytes size value small rest) l
        db holds header =
      let (db1, held, now, read_it) = header_lem 0 bytes xs db size value holds header in
      let nothing : package_size db1 (pos 0) ≡ pos 0 = rw (le→ltb db1.size 0 (omega arith)) refl in
      subst (Forwarded ps h' left)
        (sym (empty_round f db db1 (read_it ∙ ap (λ z. some (z, db1)) nothing)))
        (loop_lem f rest (omega (arith, length-append bytes xs)) db1 held now)
  loop_lem (suc f)
        (head {n = suc n} {h = h'} {xs = xs} {left = left} {ps = ps} bytes size value small rest) l
        db holds header =
      let (db1, held, now, read_it) = header_lem (suc n) bytes xs db size value holds header in
      let same : readheader db header_size ≡ readheader db1 header_size =
        read_it ∙ sym (ap (λ z. with_header z db1 header_size) now) in
      subst (Forwarded ps h' left) (sym (same_round f db db1 same))
        (loop_lem (suc f) rest (omega (arith, length-append bytes xs)) db1 held now)

-- `dispatch_message` of a gate or a connection with a receiver, for a header size above 0, on a
-- buffer that holds the bytes `xs` behind a header of size `h` (0 is none): if `xs` and the new
-- bytes make up the packages `ps`, each below 16M, and `left`, which completes no other, then it
-- returns, sends the packages `ps`, in order, to that receiver, skips packages of size 0, and
-- keeps `left`.
pub dispatch_message_lem :
    (route : Route) (header_size : ℕ) (action : List ℕ → Action)
    → receiver route ≡ some action
    → 0 < header_size
    → (db : DataBuffer) (h : ℕ) (xs buffer : List ℕ) (ps : List (List ℕ)) (h' : ℕ) (left : List ℕ)
    → Holds db xs
    → db.header ≡ pos h
    → Packages header_size h (xs ++ buffer) ps h' left
    → (db' : DataBuffer) × (dispatch_message route header_size db buffer
        ≡ some (map action ps, db'))
      × Holds db' left
      × (db'.header ≡ pos h')
unfolding dispatch_message
dispatch_message_lem route header_size action there positive db h xs buffer ps h' left holds header
      packages =
    let pushed = push-Holds db xs buffer holds in
    let result =
      loop_lem route header_size action there positive (db.size + length buffer + 1) packages
        (omega (arith, pushed.size)) (push db buffer) pushed header in
    (result.buffer, result.returns, result.holds, result.header)
