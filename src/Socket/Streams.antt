-- ===== src/Socket/Streams.antt =====
-- src/util/socket.cc: what a connection delivers.
use vkccl.Prelude.{
  ℕ, zero, suc, ◌+◌, ◌-◌, ◌≤◌, min, ◌≡◌, refl, sym, ap, subst, ◌∙◌, Bool, true, false, not, ◌&&◌,
  List, [], ◌∷◌, ◌++◌, arith, length, take, drop, length-append,
}
use vkccl.Socket.{Io, moved, interrupted, would_block, failed, done, send_all, recv_all}

-- Answers that never fail or run past the deadline, and how many of them move bytes.
unfoldable pub calm : List Io → Bool
calm [] = true
calm (moved k ∷ ios) = calm ios
calm (interrupted ∷ ios) = calm ios
calm (would_block expired ∷ ios) = not expired && calm ios
calm (failed ∷ ios) = false

unfoldable pub moves : List Io → ℕ
moves [] = 0
moves (moved k ∷ ios) = moves ios + 1
moves (interrupted ∷ ios) = moves ios
moves (would_block expired ∷ ios) = moves ios
moves (failed ∷ ios) = moves ios

module _ {A : Type 0} where
  append_assoc : (xs ys zs : List A) → (xs ++ ys) ++ zs ≡ xs ++ (ys ++ zs)
  append_assoc [] ys zs = refl
  append_assoc (x ∷ xs) ys zs = ap (λ l. x ∷ l) (append_assoc xs ys zs)

  take-drop : (n : ℕ) (xs : List A) → take n xs ++ drop n xs ≡ xs
  take-drop zero xs = refl
  take-drop (suc n) [] = refl
  take-drop (suc n) (x ∷ xs) = ap (λ l. x ∷ l) (take-drop n xs)

  append_nil : (xs : List A) → xs ++ [] ≡ xs
  append_nil [] = refl
  append_nil (x ∷ xs) = ap (λ l. x ∷ l) (append_nil xs)

  length-take : (n : ℕ) (xs : List A) → length (take n xs) ≡ min n (length xs)
  length-take zero xs = omega arith
  length-take (suc n) [] = omega arith
  length-take (suc n) (x ∷ xs) = omega (arith, length-take n xs)

  moved_split :
      (wire : List A) (b : A) (n : ℕ) (bs : List A)
      → (wire ++ b ∷ take n bs) ++ drop n bs ≡ wire ++ b ∷ bs
  moved_split wire b n bs =
      append_assoc wire (b ∷ take n bs) (drop n bs) ∙ ap (λ l. wire ++ b ∷ l) (take-drop n bs)

  -- What was sent is a first part of the buffer, and all of it where the send succeeds.
  pub send_all_lem :
      (ios : List Io) (buf wire : List A)
      → let (end, wire') = send_all ios buf wire in
        ((rest : List A) × (wire' ++ rest ≡ wire ++ buf)) × (end ≡ done → wire' ≡ wire ++ buf)
  unfolding send_all
  send_all_lem ios [] wire = (([], refl), λ e. sym (append_nil wire))
  send_all_lem [] (b ∷ bs) wire = ((b ∷ bs, refl), λ e. cc)
  send_all_lem (moved k ∷ ios) (b ∷ bs) wire =
      let ((rest, e), all) = send_all_lem ios (drop k bs) (wire ++ b ∷ take k bs) in
      ((rest, e ∙ moved_split wire b k bs), λ d. all d ∙ moved_split wire b k bs)
  send_all_lem (interrupted ∷ ios) (b ∷ bs) wire = send_all_lem ios (b ∷ bs) wire
  send_all_lem (would_block false ∷ ios) (b ∷ bs) wire = send_all_lem ios (b ∷ bs) wire
  send_all_lem (would_block true ∷ ios) (b ∷ bs) wire = ((b ∷ bs, refl), λ e. cc)
  send_all_lem (failed ∷ ios) (b ∷ bs) wire = ((b ∷ bs, refl), λ e. cc)

  recv_all_inv :
      (ios : List Io) (want : ℕ) (wire got : List A)
      → let (end, wire', got') = recv_all ios want wire got in
        (got' ++ wire' ≡ got ++ wire)
        × (length got' ≤ length got + want)
        × (end ≡ done → length got' ≡ length got + want)
  unfolding recv_all
  recv_all_inv ios zero wire got = (refl, omega arith, λ e. omega arith)
  recv_all_inv [] (suc want) wire got = (refl, omega arith, λ e. cc)
  recv_all_inv (moved k ∷ ios) (suc want) [] got = (refl, omega arith, λ e. cc)
  recv_all_inv (moved k ∷ ios) (suc want) (b ∷ wire) got =
      let n = min (min k want) (length wire) in
      let (same, most, all) = recv_all_inv ios (want - n) (drop n wire) (got ++ b ∷ take n wire) in
      let len = length-append got (b ∷ take n wire) in
      let short = length-take n wire in
      (same ∙ moved_split got b n wire, omega arith, λ e. let whole = all e in omega arith)
  recv_all_inv (interrupted ∷ ios) (suc want) wire got = recv_all_inv ios (suc want) wire got
  recv_all_inv (would_block false ∷ ios) (suc want) wire got = recv_all_inv ios (suc want) wire got
  recv_all_inv (would_block true ∷ ios) (suc want) wire got = (refl, omega arith, λ e. cc)
  recv_all_inv (failed ∷ ios) (suc want) wire got = (refl, omega arith, λ e. cc)

  -- Lists that start with as many elements of one list share them.
  same_start :
      (xs ys us vs : List A) → length xs ≡ length us → xs ++ ys ≡ us ++ vs → (xs ≡ us) × (ys ≡ vs)
  same_start [] ys [] vs l e = (refl, e)
  same_start [] ys (u ∷ us) vs l e = absurd (omega arith)
  same_start (x ∷ xs) ys [] vs l e = absurd (omega arith)
  same_start (x ∷ xs) ys (u ∷ us) vs l e =
      let head : x ≡ u = cc in
      let tails : xs ++ ys ≡ us ++ vs = cc in
      let (p, q) = same_start xs ys us vs (omega arith) tails in (cc, q)

  length-drop : (n : ℕ) (xs : List A) → length (drop n xs) ≡ length xs - n
  length-drop zero xs = omega arith
  length-drop (suc n) [] = omega arith
  length-drop (suc n) (x ∷ xs) = omega (arith, length-drop n xs)

  send_all-done :
      (ios : List Io) (buf wire : List A)
      → calm ios ≡ true
      → length buf ≤ moves ios
      → (send_all ios buf wire).0 ≡ done
  unfolding send_all calm moves
  send_all-done ios [] wire c m = refl
  send_all-done [] (b ∷ bs) wire c m = absurd (omega arith)
  send_all-done (moved k ∷ ios) (b ∷ bs) wire c m =
      send_all-done ios (drop k bs) (wire ++ b ∷ take k bs) c (omega (arith, length-drop k bs))
  send_all-done (interrupted ∷ ios) (b ∷ bs) wire c m = send_all-done ios (b ∷ bs) wire c m
  send_all-done (would_block false ∷ ios) (b ∷ bs) wire c m = send_all-done ios (b ∷ bs) wire c m
  send_all-done (would_block true ∷ ios) (b ∷ bs) wire c m = absurd (ground arith)
  send_all-done (failed ∷ ios) (b ∷ bs) wire c m = absurd (ground arith)

  recv_all-done :
      (ios : List Io) (want : ℕ) (wire got : List A)
      → calm ios ≡ true
      → want ≤ moves ios
      → want ≤ length wire
      → (recv_all ios want wire got).0 ≡ done
  unfolding recv_all calm moves
  recv_all-done ios zero wire got c m w = refl
  recv_all-done [] (suc want) wire got c m w = absurd (omega arith)
  recv_all-done (moved k ∷ ios) (suc want) [] got c m w = absurd (omega arith)
  recv_all-done (moved k ∷ ios) (suc want) (b ∷ wire) got c m w =
      let n = min (min k want) (length wire) in
      recv_all-done ios (want - n) (drop n wire) (got ++ b ∷ take n wire) c (omega arith)
        (omega (arith, length-drop n wire))
  recv_all-done (interrupted ∷ ios) (suc want) wire got c m w =
      recv_all-done ios (suc want) wire got c m w
  recv_all-done (would_block false ∷ ios) (suc want) wire got c m w =
      recv_all-done ios (suc want) wire got c m w
  recv_all-done (would_block true ∷ ios) (suc want) wire got c m w = absurd (ground arith)
  recv_all-done (failed ∷ ios) (suc want) wire got c m w = absurd (ground arith)

  recv_all_exact :
      (ios : List Io) (buf later : List A)
      → (recv_all ios (length buf) (buf ++ later) []).0 ≡ done
      → recv_all ios (length buf) (buf ++ later) [] ≡ (done, later, buf)
  recv_all_exact ios buf later e =
      let (end, wire, got) = recv_all ios (length buf) (buf ++ later) [] in
      let (same, most, all) = recv_all_inv ios (length buf) (buf ++ later) [] in
      let (g, w) = same_start got wire buf later (omega (arith, all e)) same in λ i. (e i, w i, g i)

-- `recvAll` after `sendAll`, over a connection that carries other bytes afterwards. However the
-- kernel cuts the transfer: when both succeed, exactly the bytes of the buffer have arrived, in
-- order, and what was sent later is still to come.
pub transfer_lem :
    {A : Type 0} (sends recvs : List Io) (buf later : List A)
    → (send_all sends buf []).0 ≡ done
    → (recv_all recvs (length buf) ((send_all sends buf []).1 ++ later) []).0 ≡ done
    → recv_all recvs (length buf) ((send_all sends buf []).1 ++ later) [] ≡ (done, later, buf)
transfer_lem sends recvs buf later d e =
    let whole = (send_all_lem sends buf []).1 d in
    subst
      (λ w.
        (recv_all recvs (length buf) (w ++ later) []).0 ≡ done
        → recv_all recvs (length buf) (w ++ later) [] ≡ (done, later, buf))
      (sym whole) (recv_all_exact recvs buf later) e

-- When no call fails and no deadline passes, `sendAll` and `recvAll` of a buffer both succeed after
-- at most as many moves as the buffer has bytes, whatever the sizes of the moves.
pub transfer_ends :
    {A : Type 0} (sends recvs : List Io) (buf later : List A)
    → calm sends ≡ true
    → calm recvs ≡ true
    → length buf ≤ moves sends
    → length buf ≤ moves recvs
    → ((send_all sends buf []).0 ≡ done)
      × ((recv_all recvs (length buf) ((send_all sends buf []).1 ++ later) []).0 ≡ done)
transfer_ends sends recvs buf later cs cr ms mr =
    let d = send_all-done sends buf [] cs ms in
    let whole = (send_all_lem sends buf []).1 d in
    (
      d,
      rw whole (
          recv_all-done recvs (length buf) (buf ++ later) [] cr mr
            (omega (arith, length-append buf later))),
    )
