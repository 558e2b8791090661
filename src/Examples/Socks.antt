-- ===== src/Examples/Socks.antt =====
-- server-core.c: the theorems on the list of sockets at concrete sockets.
use mathlib.Core.Bool.{false≢true}
use serveez.Base.{
  Bool, [], ap, arith, false, if◌then◌else◌, inl, inr, none, refl, some, suc, true, zero, ℕ, ◌==◌,
  ◌∷◌, ◌≡◌, ◌≢◌,
}
use serveez.Core.{Socks, entry, minus_one, svz_sock_enqueue}
use serveez.Core.Dequeue.{Dequeues, dequeue-IsValid}
use serveez.Core.Enqueue.{Enqueues, enqueue-IsValid}
use serveez.Core.Identify.{Identifies, unique_id-IsValid}
use serveez.Core.Parent.{NoneOrSame, getparent-setparent, svz_sock_getparent, svz_sock_setparent}
use serveez.Core.Rechain.{insert_behind, passes, rechain-IsValid, rechain_list_of_socks}
use serveez.Core.Shutdown.{close_all, close_killed, close_killed-survivors, survivors}
use serveez.Core.Valid.{IsValid}

-- Four entries, and no socket yet; the sockets 10 and 11 have the ids 2 and 3.
abbrev none_yet : Socks
none_yet = record {
  links = record { first = none; last = none; next = λ p. none; prev = λ p. none };
  id = λ p. if p == 10 then 2 else 3;
  version = λ p. 7;
  enqueued = λ p. false;
  listening = λ p. false;
  priority = λ p. false;
  killed = λ p. p == 10;
  parent_id = λ p. none;
  parent_version = λ p. none;
  referrer_id = λ p. none;
  referrer_version = λ p. none;
  port = λ p. some p;
  socktab = none ∷ none ∷ none ∷ none ∷ [];
  sock_id = 3;
  sock_version = 8;
  sock_limit = 4;
}

abbrev all_usable : ℕ → Bool
all_usable p = true

none_free : (i : ℕ) → entry none_yet i ≡ none
none_free zero = refl
none_free (suc zero) = refl
none_free (suc (suc zero)) = refl
none_free (suc (suc (suc zero))) = refl
none_free (suc (suc (suc (suc i)))) = refl

none_yet-IsValid : IsValid none_yet []
none_yet-IsValid = record {
  chain = record { starts = refl; ends = refl; linked = tt; distinct = tt };
  width = refl;
  found = tt;
  listed = λ x mark. absurd (false≢true mark);
  owned = λ i x at. cc (none_free i, at);
}

enqueue-IsValid_example : Enqueues all_usable none_yet [] 10
enqueue-IsValid_example = enqueue-IsValid all_usable none_yet [] 10 none_yet-IsValid (omega arith)

abbrev one_sock : Socks
one_sock = (svz_sock_enqueue all_usable none_yet 10).1

one_sock-IsValid : IsValid one_sock (10 ∷ [])
unfolding svz_sock_enqueue
one_sock-IsValid = elim (enqueue-IsValid all_usable none_yet [] 10 none_yet-IsValid (omega arith)) [
  | inl (e, _) ↦ absurd (false≢true (ap (λ r. r.0) e))
  | inr (_, v, _) ↦ v
]

abbrev two_socks : Socks
two_socks = (svz_sock_enqueue all_usable one_sock 11).1

two_socks-IsValid : IsValid two_socks (10 ∷ 11 ∷ [])
unfolding svz_sock_enqueue serveez.Chain.assign
two_socks-IsValid =
    elim (enqueue-IsValid all_usable one_sock (10 ∷ []) 11 one_sock-IsValid (omega arith)) [
      | inl (e, _) ↦ absurd (false≢true (ap (λ r. r.0) e))
      | inr (_, v, _) ↦ v
    ]

dequeue-IsValid_example : Dequeues all_usable two_socks (10 ∷ 11 ∷ []) 10
dequeue-IsValid_example = dequeue-IsValid all_usable two_socks (10 ∷ 11 ∷ []) 10 two_socks-IsValid

unique_id-IsValid_example : Identifies two_socks (10 ∷ 11 ∷ []) 12
unfolding svz_sock_enqueue serveez.Chain.assign
unique_id-IsValid_example =
    unique_id-IsValid two_socks (10 ∷ 11 ∷ []) 12 2 two_socks-IsValid refl (omega arith) refl

rechain-IsValid_example :
    (r : Socks) × (rechain_list_of_socks 2 two_socks ≡ some r)
    × IsValid r (insert_behind (passes two_socks 11) 11 (10 ∷ []))
rechain-IsValid_example = rechain-IsValid 2 two_socks (10 ∷ []) 11 two_socks-IsValid (omega arith)

two_socks_counts : two_socks.version 10 ≢ minus_one
unfolding svz_sock_enqueue serveez.Chain.assign
two_socks_counts e = omega (arith, e)

-- Socket 11 gets socket 10 as its parent.
abbrev with_parent : Socks
with_parent = svz_sock_setparent two_socks (some 11) (some 10)

getparent-setparent_example :
    (svz_sock_getparent with_parent (some 11) ≡ some 10)
    × NoneOrSame two_socks 10 with_parent (10 ∷ 11 ∷ []) (svz_sock_getparent with_parent (some 11))
unfolding svz_sock_setparent
getparent-setparent_example =
    getparent-setparent two_socks with_parent (10 ∷ 11 ∷ []) (10 ∷ 11 ∷ []) 11 10 two_socks-IsValid
      (inl refl) two_socks_counts
      (record {
        chain = two_socks-IsValid.chain;
        width = two_socks-IsValid.width;
        found = two_socks-IsValid.found;
        listed = two_socks-IsValid.listed;
        owned = two_socks-IsValid.owned;
      })
      refl refl

-- Socket 10 is killed; the callback does nothing.
abbrev no_callback : Socks → ℕ → Socks
no_callback s x = s

close_killed-survivors_example :
    ((r : Socks) × (close_killed all_usable no_callback 3 two_socks two_socks.links.first ≡ some r)
      × IsValid r (survivors two_socks.killed (10 ∷ 11 ∷ [])))
    × ((r : Socks) × (close_all all_usable no_callback 3 two_socks ≡ some r) × IsValid r [])
close_killed-survivors_example =
    close_killed-survivors all_usable no_callback (λ x. refl) (λ s x ids v. (v, refl)) 3 two_socks
      (10 ∷ 11 ∷ []) two_socks-IsValid (omega arith)
