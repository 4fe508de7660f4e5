-- ===== src/Agent/Status/Username.antt =====
-- That getUsername of agent/server/impl/Agent.cpp ends, and with what.
use oort_agent.Base.{
  ℕ, zero, suc, ◌*◌, ◌≡◌, refl, sym, ap, ◌∙◌, Bool-cases, false, [], Bytes, ltb, leb, if◌then◌else◌,
  inl, inr, arith,
}
use oort_agent.Agent.Status.{
  Passwd, user, no_user, erange, max_buflen, username_loop, name_of, get_username,
}

-- A database whose entry for the user needs a buffer of `size` bytes.
abbrev pub needs : ℕ → Bytes → ℕ → Passwd
needs size name buflen = if leb size buflen then user name else erange

-- From a length beyond the limit on the loop makes no call.
beyond :
    (db : ℕ → Passwd) (rounds buflen : ℕ) (last : Passwd)
    → ltb buflen max_buflen ≡ false
    → username_loop db rounds buflen last ≡ last
unfolding username_loop
beyond db zero buflen last e = refl
beyond db (suc rounds) buflen last e = rw (e, username_loop) refl

-- A round that comes out the same if the later ones do.
same_round :
    (db : ℕ → Passwd) (n m buflen : ℕ) (last : Passwd)
    → username_loop db n (buflen * 2) erange ≡ username_loop db m (buflen * 2) erange
    → username_loop db (suc n) buflen last ≡ username_loop db (suc m) buflen last
unfolding username_loop
same_round db n m buflen last e = elim (Bool-cases (ltb buflen max_buflen)) [
  | inr far ↦ rw (far, username_loop) refl
  | inl near ↦ rw (near, username_loop) (called (db buflen))
]
  where
    called :
        (r : Passwd)
        → elim r [
          | user name ↦ user name
          | no_user ↦ no_user
          | erange ↦ username_loop db n (buflen * 2) erange
        ]
          ≡ elim r [
            | user name ↦ user name
            | no_user ↦ no_user
            | erange ↦ username_loop db m (buflen * 2) erange
          ]
    called (user name) = refl
    called no_user = refl
    called erange = e

-- More rounds than eight change nothing, whatever the database says.
rounds_enough :
    (db : ℕ → Passwd) (more : ℕ)
    → username_loop db (suc (suc (suc (suc (suc (suc (suc more))))))) 128 erange
      ≡ username_loop db 8 128 erange
rounds_enough db more = same_round db _ 7 128 erange (
    same_round db _ 6 256 erange (
      same_round db _ 5 512 erange (
        same_round db _ 4 1024 erange (
          same_round db _ 3 2048 erange (
            same_round db _ 2 4096 erange (
              same_round db _ 1 8192 erange
                (beyond db more 16384 erange refl ∙ sym (beyond db 1 16384 erange refl))))))))

fits :
    (size : ℕ) (name : Bytes)
    → get_username (needs size name) ≡ (if leb size 8192 then name else [])
unfolding get_username username_loop
fits size name = ground arith

-- Whatever the database says the loop of getUsername ends after at most seven calls, so that more
-- rounds change nothing; a user whose entry needs 8192 bytes at most is named, and with a larger
-- entry the name is empty.
pub get_username_lem :
    (db : ℕ → Passwd) (more size : ℕ) (name : Bytes)
    → (name_of (username_loop db (suc (suc (suc (suc (suc (suc (suc more))))))) 128 erange)
        ≡ get_username db)
      × (get_username (needs size name) ≡ (if leb size 8192 then name else []))
unfolding get_username
get_username_lem db more size name = (ap name_of (rounds_enough db more), fits size name)
