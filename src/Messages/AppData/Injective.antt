-- ===== src/Messages/AppData/Injective.antt =====
-- The length-prefixed formats of `AppAuthenticatedData`, taken apart again.
use orb_relay_messages.Common.{
  ℕ, ◌<◌, ◌≡◌, inl, inr, refl, ap, sym, ◌∙◌, List, [], ◌∷◌, ◌++◌, length, append_inj, ◌≢◌,
  length-append, arith, append_assoc,
}
use orb_relay_messages.Common.Bytes.{Bytes, Text, u32_mod, to_le_bytes, to_le_bytes_inj}
use orb_relay_messages.Messages.AppData.{AppAuthenticatedData, current_version}
use orb_relay_messages.Messages.AppData.Preimage.{
  frames, v1_fields, current_fields, versions, preimage, IsSized, IsHashable, Sized, v1_Sized,
}

le_split :
    (m n : ℕ) (xs ys : Bytes)
    → m < u32_mod
    → n < u32_mod
    → to_le_bytes m ++ xs ≡ to_le_bytes n ++ ys
    → (m ≡ n) × (xs ≡ ys)
unfolding to_le_bytes
le_split m n xs ys hm hn e =
    let (p, q) = append_inj (to_le_bytes m) (to_le_bytes n) xs ys refl e in
    (to_le_bytes_inj m n hm hn p, q)

-- As many frames on both sides, and equal bytes: the same fields and the same rest.
frames_inj :
    (vs ws : List Text) (s t : Bytes)
    → length vs ≡ length ws
    → Sized vs
    → Sized ws
    → frames vs ++ s ≡ frames ws ++ t
    → (vs ≡ ws) × (s ≡ t)
unfolding frames
frames_inj [] [] s t n hv hw e = (refl, e)
frames_inj [] (w ∷ ws) s t n hv hw e = absurd (omega arith)
frames_inj (v ∷ vs) [] s t n hv hw e = absurd (omega arith)
frames_inj (v ∷ vs) (w ∷ ws) s t n hv hw e =
    let regroup = λ (x : Text) (xs : List Text) (r : Bytes).
      append_assoc (to_le_bytes (length x)) (x ++ frames xs) r
      ∙ ap (◌++◌ (to_le_bytes (length x))) (append_assoc x (frames xs) r) in
    let e' = sym (regroup v vs s) ∙ e ∙ regroup w ws t in
    let (lengths, rest) =
      le_split (length v) (length w) (v ++ (frames vs ++ s)) (w ++ (frames ws ++ t)) hv.0 hw.0 e' in
    let (here, rest') = append_inj v w (frames vs ++ s) (frames ws ++ t) lengths rest in
    let (there, tails) = frames_inj vs ws s t (omega arith) hv.1 hw.1 rest' in (cc, tails)

frames-append : (vs ws : List Text) → frames (vs ++ ws) ≡ frames vs ++ frames ws
unfolding frames
frames-append [] ws = refl
frames-append (v ∷ vs) ws = simp (frames-append vs ws, append_assoc)

length-versions : (d : AppAuthenticatedData) → length (versions d) ≡ 8
unfolding to_le_bytes
length-versions d = refl

preimage_current :
    (d : AppAuthenticatedData)
    → d.version ≡ current_version
    → preimage d ≡ frames (current_fields d) ++ versions d
unfolding preimage
preimage_current d e = ground arith

preimage_v1 :
    (d : AppAuthenticatedData) → d.version ≡ 1 → preimage d ≡ frames (v1_fields d) ++ versions d
unfolding preimage
preimage_v1 d e = ground arith

fifth_frame :
    (d d' : AppAuthenticatedData)
    → versions d ≡ frames (d'.device_public_key ∷ []) ++ versions d'
    → ⊥
unfolding frames to_le_bytes
fifth_frame d d' e =
    let n = ap length e in
    absurd (omega (arith, n, length-append {0} (d'.device_public_key ++ []) (versions d')))

module _ (d d' : AppAuthenticatedData) (s : IsSized d) (s' : IsSized d') where
  versions_inj :
      versions d ≡ versions d' → (d.pcp_version ≡ d'.pcp_version) × (d.version ≡ d'.version)
  versions_inj e =
      let (p, q) = le_split d.pcp_version d'.pcp_version _ _ s.pcp s'.pcp e in
      (p, to_le_bytes_inj d.version d'.version s.version s'.version q)

  same_current :
      frames (current_fields d) ++ versions d ≡ frames (current_fields d') ++ versions d' → d ≡ d'
  same_current e =
      let (fs, vs) =
        frames_inj (current_fields d) (current_fields d') _ _ refl s.fields s'.fields e in
      ground (arith, versions_inj vs)

  same_v1 :
      d.device_public_key ≡ d'.device_public_key
      → frames (v1_fields d) ++ versions d ≡ frames (v1_fields d') ++ versions d'
      → d ≡ d'
  same_v1 k e =
      let (fs, vs) =
        frames_inj (v1_fields d) (v1_fields d') _ _ refl (v1_Sized s) (v1_Sized s') e in
      ground (arith, versions_inj vs)

  -- The fifth frame of the current format makes its rest longer than that of the v1 format.
  different_formats :
      frames (v1_fields d) ++ versions d ≡ frames (current_fields d') ++ versions d' → ⊥
  different_formats e =
      let key = d'.device_public_key ∷ [] in
      let e' =
        e
        ∙ rw (frames-append (v1_fields d') key)
            (append_assoc (frames (v1_fields d')) (frames key) (versions d')) in
      let (_, rest) =
        frames_inj (v1_fields d) (v1_fields d') (versions d) (frames key ++ versions d') refl
          (v1_Sized s) (v1_Sized s') e' in
      fifth_frame d d' rest

-- Two data that `verify` can hash under the length-prefixed formats (versions 1 and 2, sized
-- fields) and that have the same bytes to hash are the same data.
pub preimage_inj :
    (d d' : AppAuthenticatedData)
    → IsSized d
    → IsSized d'
    → IsHashable d
    → IsHashable d'
    → d.version ≢ 0
    → d'.version ≢ 0
    → preimage d ≡ preimage d'
    → d ≡ d'
preimage_inj d d' s s' (inl (v, _)) (inl (v', _)) z z' e =
    same_current d d' s s' (sym (preimage_current d v) ∙ e ∙ preimage_current d' v')
preimage_inj d d' s s' (inl (v, _)) (inr (inl v', _)) z z' e =
    absurd (different_formats d' d s' s (sym (preimage_v1 d' v') ∙ sym e ∙ preimage_current d v))
preimage_inj d d' s s' (inr (inl v, _)) (inl (v', _)) z z' e =
    absurd (different_formats d d' s s' (sym (preimage_v1 d v) ∙ e ∙ preimage_current d' v'))
preimage_inj d d' s s' (inr (inl v, k)) (inr (inl v', k')) z z' e =
    same_v1 d d' s s' (k ∙ sym k') (sym (preimage_v1 d v) ∙ e ∙ preimage_v1 d' v')
preimage_inj d d' s s' (inr (inr v, _)) h' z z' e = absurd (z v)
preimage_inj d d' s s' h (inr (inr v', _)) z z' e = absurd (z' v')
