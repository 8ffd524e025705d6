-- ===== src/Tlsutil/Examples.antt =====
-- Two hubs and three certificates. The digest of the examples is the length, in 32 bytes.
use zsync.Base.{
  Text, Result, Option, some, inl, inr, ◌≢◌, if◌then◌else◌, length, replicate, Bytes, codes,
  text_eq, ◌==◌, nat_eq, ok, err, ◌%◌, ◌≡◌, refl, true, none, List, [], ◌∷◌, arith,
}
use zsync.Tlsutil.{
  PinsFile, PinError, unreadable, saved, untouched, cut, certificate_refused, load_pin, save_pin,
  verify_server_cert, connect_pinned,
}
use zsync.Tlsutil.Pins.{Attempt, connections, IsDigest, pin_saved, first_certificate_stays}

abbrev digest : Bytes → Bytes
digest b = (length b % 256) ∷ replicate 31 0

digest-IsDigest : IsDigest digest
digest-IsDigest b = (ground arith, refl)

abbrev cert : Bytes
cert = codes "cert"

abbrev hub : Text
hub = codes "hub:1"

-- The file behind the first connection, which another one found when it began.
abbrev first : PinsFile
first = (connect_pinned digest none none hub cert true saved).0

abbrev visits : List Attempt
visits =
    record {
      hub = codes "other:1";
      loaded = none;
      cert = codes "xx";
      completes = true;
      write = saved;
    }
    ∷ record {
      hub = codes "hub:1";
      loaded = first;
      cert = codes "forged cert";
      completes = true;
      write = untouched;
    }
    ∷ []

pinned : (connect_pinned digest none none hub cert true saved).1 ≡ ok tt
unfolding connect_pinned load_pin save_pin verify_server_cert
pinned = refl

unpinned : load_pin none hub ≡ ok none
unfolding load_pin
unpinned = refl

done : saved ≢ cut
done h = absurd (cc)

failed : untouched ≢ cut
failed h = absurd (cc)

elsewhere : codes "other:1" ≢ hub
elsewhere h = ground arith

read : load_pin first hub ≢ ok none
read h =
    absurd (clash _ (pin_saved digest digest-IsDigest none none hub cert saved unpinned pinned) h)
  where
    clash : (r : Result PinError (Option Bytes)) → r ≡ ok (some (digest cert)) → r ≡ ok none → ⊥
    clash r e h = cc

first_certificate_stays_example :
    ((connect_pinned digest
        (connections digest first visits)
        none
        hub
        (codes "forged cert")
        true
        saved).1
      ≡ (if digest cert == digest (codes "forged cert") then ok tt else err certificate_refused))
    × (load_pin (connect_pinned digest none none hub cert true cut).0 (codes "other:1")
        ≡ err unreadable)
first_certificate_stays_example =
    first_certificate_stays digest digest-IsDigest none none none hub (codes "other:1") cert
      (codes "forged cert") saved saved visits unpinned pinned
      ((done, inl elsewhere), ((failed, inr read), tt))
