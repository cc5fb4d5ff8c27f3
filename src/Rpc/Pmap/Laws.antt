-- ===== src/Rpc/Pmap/Laws.antt =====
-- Port mappings, and lists of them, from one stream to another.
use oncrpc4_win.Common.{ℕ, ◌+◌, ◌<◌, ◌≡◌, refl, Bool, true, List, [], ◌++◌, length, All}
use oncrpc4_win.Common.Words.{IsU32, be32}
use oncrpc4_win.Xdr.Stream.{encode, decode, XdrOps, XdrLaws}
use oncrpc4_win.Xdr.Codec.{
  Encodes, Decodes, Codec, on_field-Encodes, on_field-Decodes, &&&-Encodes, &&&-Decodes,
}
use oncrpc4_win.Xdr.Scalar.Laws.{xdr_u_long-Encodes, xdr_u_long-Decodes}
use oncrpc4_win.Rpc.Pmap.{Pmap, xdr_pmap, xdr_pmaplist}
use oncrpc4_win.Rpc.Lists.Laws.{
  EncodedSome, DecodedSome, list_wire, list_loop-Encodes, list_loop-Decodes,
}

-- The fields are 32-bit words.
pub record IsPmap (p : Pmap) : Type 0 where
  pub prog_fits : IsU32 p.prog
  pub vers_fits : IsU32 p.vers
  pub prot_fits : IsU32 p.prot
  pub port_fits : IsU32 p.port

abbrev pub pmap_wire : Pmap → List ℕ
pmap_wire p = be32 p.prog ++ (be32 p.vers ++ (be32 p.prot ++ be32 p.port))

module _ {S : Type 0} {x : XdrOps S} (laws : XdrLaws x) where
  pub xdr_pmap-Encodes : (p : Pmap) → Encodes laws (xdr_pmap x) p (pmap_wire p)
  unfolding xdr_pmap
  xdr_pmap-Encodes p =
      &&&-Encodes laws _ _ p (be32 p.prog) _
        (on_field-Encodes laws _ _ _ p _ refl (xdr_u_long-Encodes laws p.prog))
        (&&&-Encodes laws _ _ p (be32 p.vers) _
          (on_field-Encodes laws _ _ _ p _ refl (xdr_u_long-Encodes laws p.vers))
          (&&&-Encodes laws _ _ p (be32 p.prot) _
            (on_field-Encodes laws _ _ _ p _ refl (xdr_u_long-Encodes laws p.prot))
            (on_field-Encodes laws _ _ _ p _ refl (xdr_u_long-Encodes laws p.port))))

  pub xdr_pmap-Decodes : (old p : Pmap) → IsPmap p → Decodes laws (xdr_pmap x) old p (pmap_wire p)
  unfolding xdr_pmap
  xdr_pmap-Decodes old p h =
      let p1 : Pmap = record old { prog = p.prog } in
      let p2 : Pmap = record p1 { vers = p.vers } in
      let p3 : Pmap = record p2 { prot = p.prot } in
      &&&-Decodes laws _ _ old p1 _ (be32 p.prog) _
        (on_field-Decodes laws _ _ _ old p.prog _
          (xdr_u_long-Decodes laws old.prog p.prog h.prog_fits))
        (&&&-Decodes laws _ _ p1 p2 _ (be32 p.vers) _
          (on_field-Decodes laws _ _ _ p1 p.vers _
            (xdr_u_long-Decodes laws old.vers p.vers h.vers_fits))
          (&&&-Decodes laws _ _ p2 p3 _ (be32 p.prot) _
            (on_field-Decodes laws _ _ _ p2 p.prot _
              (xdr_u_long-Decodes laws old.prot p.prot h.prot_fits))
            (on_field-Decodes laws _ _ _ p3 p.port _
              (xdr_u_long-Decodes laws old.port p.port h.port_fits))))

  abbrev pub pmap_codec : Codec laws (xdr_pmap x)
  pmap_codec = record {
    IsValid = IsPmap;
    wire = pmap_wire;
    encodes = λ p h. xdr_pmap-Encodes p;
    decodes = xdr_pmap-Decodes;
  }

  -- A list of port mappings with 32-bit fields is sent as TRUE before each mapping and FALSE at the
  -- end; from these bytes a null list becomes that list, whenever the allocator grants a node. In
  -- both directions the loop returns after as many rounds as the list has elements, and one more.
  pub xdr_pmaplist_roundtrip :
      (mem_alloc : ℕ → Bool) (blank : Pmap) (size : ℕ) (reread : List Pmap → List Pmap) (fuel : ℕ)
      (l : List Pmap) (s : S) (n : ℕ) (t : S) (rest : List ℕ)
      → length l < fuel
      → mem_alloc size ≡ true
      → All IsPmap l
      → laws.Room s (length (list_wire pmap_wire l) + n)
      → laws.Input t (list_wire pmap_wire l ++ rest)
      → EncodedSome laws l
          (list_wire pmap_wire l)
          s
          n
          (xdr_pmaplist x mem_alloc blank size reread fuel encode l s)
        × DecodedSome laws l rest (xdr_pmaplist x mem_alloc blank size reread fuel decode [] t)
  unfolding xdr_pmaplist
  xdr_pmaplist_roundtrip mem_alloc blank size reread fuel l s n t rest hf hm h room input = (
    list_loop-Encodes laws pmap_codec mem_alloc blank size reread l fuel s n hf h room,
    list_loop-Decodes laws pmap_codec mem_alloc blank size reread l fuel t rest hf hm h input,
  )
