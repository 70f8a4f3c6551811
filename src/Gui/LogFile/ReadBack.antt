-- ===== src/Gui/LogFile/ReadBack.antt =====
-- What `ReadLogFile` gives from the file that `WriteLogFile` stores, and from other files.
use fvploader.Prelude.{
  ℕ, ◌+◌, ◌-◌, ◌*◌, ◌≤◌, ◌<◌, ◌≡◌, ◌≢◌, refl, sym, ap, subst, ◌∙◌, Bool, true, false, Option, some,
  List, [], ◌++◌, length, take, drop, replicate, arith, length-append, drop-append, take-append,
  drop-replicate, ltb, overlay, overlay_full, of_bytes, dword_bytes, of_bytes-dword_bytes,
  length-dword_bytes,
}
use mathlib.Core.List.{append_assoc, append-nil}
use fvploader.Container.Hash.{bytes_of_units}
use fvploader.File.{NtIo, Disk, new_disk, close, open_file, read, seek_begin}
use fvploader.File.Laws.{
  IsFileSystem, IsOpen, open_file-IsOpen, read-IsOpen, seek_begin-IsOpen, contents-close,
}
use fvploader.Gui.LogFile.{
  log_name, log_sig, max_path, same_bytes, Outputs, Locals, flag_byte, read_flags, read_path,
  read_body, read_log_file, write_log_file,
}
use fvploader.Gui.LogFile.Written.{
  head_bytes, log_bytes, length-bytes_of_units, IsWritable, write_log_file-contents,
}

-- the outputs after a read of a file with this path and these flags
abbrev pub outputs_of : ℕ → List ℕ → Bool → Bool → Bool → Outputs
outputs_of cc_buffer path window message font = record {
  exe_path = bytes_of_units path ++ replicate (cc_buffer * 2 - length path * 2) 0;
  window = flag_byte window;
  message_box = flag_byte message;
  font = flag_byte font;
}

-- The outputs are given by pointers to single bytes, and the locals have their sizes.
pub record Fits (locals : Locals) (out : Outputs) : Type 0 where
  pub mark : length locals.mark ≡ 16
  pub length_bytes : length locals.length_bytes ≡ 4
  pub window : length out.window ≡ 1
  pub message_box : length out.message_box ≡ 1
  pub font : length out.font ≡ 1

module _ (io : NtIo) (contents : io.Sys → Option (List ℕ))
    (fs : IsFileSystem io log_name contents) where
  IsAt : List ℕ → ℕ → Disk io → Type 0
  IsAt = IsOpen io log_name contents fs

  -- A read of the middle part of the file gives that part.
  read_part :
      (all before part after : List ℕ) (size : ℕ) (d : Disk io)
      → all ≡ (before ++ part) ++ after
      → IsAt all (length before) d
      → size ≡ length part
      → size ≢ 0
      → (d' : Disk io) × (read io size d ≡ (some part, d')) × IsAt all (length (before ++ part)) d'
  unfolding IsAt
  read_part all before part after size d whole o e nz =
      let fits : length before + size ≤ length all =
        rw whole (omega (arith, length-append (before ++ part) after, length-append before part)) in
      let (d', run, o') =
        read-IsOpen io log_name contents fs size all (length before) d o nz fits in
      let same : take size (drop (length before) all) ≡ part =
        rw
          (
            whole,
            append_assoc before part after,
            drop-append before (part ++ after) (length before) refl,
          )
          (take-append part after size (sym e)) in
      let after_part : length before + size ≡ length (before ++ part) =
        omega (arith, length-append before part) in
      (
        d',
        run ∙ ap (λ x. (some x, d')) same,
        subst (λ p. IsOpen io log_name contents fs all p d') after_part o',
      )

  read_flags_run :
      (out : Outputs) (d d1 d2 d3 : Disk io) (w m f : List ℕ)
      → read io 1 d ≡ (some w, d1)
      → read io 1 d1 ≡ (some m, d2)
      → read io 1 d2 ≡ (some f, d3)
      → overlay w out.window ≡ w
      → overlay m out.message_box ≡ m
      → overlay f out.font ≡ f
      → read_flags io out d ≡ (true, record out { window = w; message_box = m; font = f }, d3)
  unfolding read_flags
  read_flags_run out d d1 d2 d3 w m f r1 r2 r3 ow om of = ground arith

  read_flags_lem :
      (all : List ℕ) (window message font : Bool) (before : List ℕ) (out : Outputs) (d : Disk io)
      → all ≡ ((before ++ flag_byte window) ++ flag_byte message) ++ flag_byte font
      → IsAt all (length before) d
      → length out.window ≡ 1
      → length out.message_box ≡ 1
      → length out.font ≡ 1
      → (d' : Disk io) × (read_flags io out d ≡ (
        true,
        record out {
          window = flag_byte window;
          message_box = flag_byte message;
          font = flag_byte font;
        },
        d',
      ))
        × IsAt all
            (length (((before ++ flag_byte window) ++ flag_byte message) ++ flag_byte font))
            d'
  read_flags_lem all window message font before out d whole o lw lm lf =
      let w = flag_byte window in
      let m = flag_byte message in
      let f = flag_byte font in
      let (d1, r1, o1) =
        read_part all before w (m ++ f) 1 d (whole ∙ append_assoc (before ++ w) m f) o refl
          (omega arith) in
      let (d2, r2, o2) = read_part all (before ++ w) m f 1 d1 whole o1 refl (omega arith) in
      let (d3, r3, o3) =
        read_part all ((before ++ w) ++ m) f [] 1 d2 (whole ∙ sym (append-nil _)) o2 refl
          (omega arith) in
      (
        d3,
        read_flags_run out d d1 d2 d3 w m f r1 r2 r3 (overlay_full w out.window lw)
            (overlay_full m out.message_box lm) (overlay_full f out.font lf),
        o3,
      )

  same_log_sig : same_bytes log_sig log_sig ≡ true
  unfolding same_bytes
  same_log_sig = refl

  read_log_run :
      (cc_buffer n : ℕ) (locals : Locals) (out : Outputs) (s : io.Sys) (d0 d1 d2 d3 d4 : Disk io)
      (sig len path : List ℕ) (out' : Outputs)
      → open_file io log_name (new_disk io s) ≡ (true, d0)
      → read io 16 d0 ≡ (some sig, d1)
      → overlay sig locals.mark ≡ log_sig
      → read io 4 d1 ≡ (some len, d2)
      → of_bytes (overlay len locals.length_bytes) ≡ n
      → n ≤ max_path
      → n ≤ cc_buffer
      → read io (n * 2) d2 ≡ (some path, d3)
      → read_flags io
          (record out { exe_path = overlay path (replicate (cc_buffer * 2) 0) })
          (seek_begin io (20 + n * 2) d3)
        ≡ (true, out', d4)
      → read_log_file io cc_buffer locals out s ≡ (true, out', (close io d4).sys)
  unfolding read_log_file read_body read_path
  read_log_run cc_buffer n locals out s d0 d1 d2 d3 d4 sig len path out' r0 r1 em r2 el lp lc r3
        r4 =
      let a : ltb max_path n ≡ false = ground arith in
      let b : ltb cc_buffer n ≡ false = ground arith in ground (arith, same_log_sig)

  length-head_bytes : (path : List ℕ) → length (head_bytes path) ≡ 20 + length path * 2
  length-head_bytes path = omega (
    arith,
    length-append (log_sig ++ dword_bytes (length path)) (bytes_of_units path),
    length-append log_sig (dword_bytes (length path)),
    length-dword_bytes (length path),
    length-bytes_of_units path,
  )

  log_bytes_long :
      (path : List ℕ) (window message font : Bool)
      → 20 + length path * 2 ≤ length (log_bytes path window message font)
  log_bytes_long path window message font = omega (
    arith,
    length-head_bytes path,
    length-append (head_bytes path) (flag_byte window),
    length-append (head_bytes path ++ flag_byte window) (flag_byte message),
    length-append ((head_bytes path ++ flag_byte window) ++ flag_byte message) (flag_byte font),
  )

  -- From a file that holds a path that is not empty and no longer than MAX_PATH and the
  -- buffer, `ReadLogFile` gives the path, padded with zeros, and the three flags. The locals
  -- and the outputs have their declared sizes, and the file system is as IsFileSystem says.
  pub read_log_file_lem :
      (cc_buffer : ℕ) (locals : Locals) (out : Outputs) (path : List ℕ) (window message font : Bool)
      (s : io.Sys)
      → contents s ≡ some (log_bytes path window message font)
      → Fits locals out
      → 0 < length path
      → length path ≤ max_path
      → length path ≤ cc_buffer
      → (s' : io.Sys) × (read_log_file io cc_buffer locals out s
          ≡ (true, outputs_of cc_buffer path window message font, s'))
        × (contents s' ≡ contents s)
  unfolding IsAt
  read_log_file_lem cc_buffer locals out path window message font s h fits pos lp lc =
      let n = length path in
      let w = flag_byte window in
      let m = flag_byte message in
      let f = flag_byte font in
      let body = bytes_of_units path in
      let all = log_bytes path window message font in
      let (d0, r0, o0) = open_file-IsOpen io log_name contents fs s all h in
      let (d1, r1, o1) =
        read_part all [] log_sig ((((dword_bytes n ++ body) ++ w) ++ m) ++ f) 16 d0 refl o0 refl
          (omega arith) in
      let (d2, r2, o2) =
        read_part all log_sig (dword_bytes n) (((body ++ w) ++ m) ++ f) 4 d1 (simp append_assoc) o1
          (sym (length-dword_bytes n)) (omega arith) in
      let (d3, r3, o3) =
        read_part all (log_sig ++ dword_bytes n) body ((w ++ m) ++ f) (n * 2) d2 (simp append_assoc)
          o2 (sym (length-bytes_of_units path)) (omega arith) in
      let head = length-head_bytes path in
      let o4 =
        seek_begin-IsOpen io log_name contents fs all _ (20 + n * 2) d3 o3
          (log_bytes_long path window message font) in
      let out1 : Outputs = record out { exe_path = overlay body (replicate (cc_buffer * 2) 0) } in
      let (d5, r5, o5) =
        read_flags_lem all window message font (head_bytes path) out1
          (seek_begin io (20 + n * 2) d3) refl
          (subst (λ p. IsOpen io log_name contents fs all p (seek_begin io (20 + n * 2) d3))
            (sym head) o4)
          fits.window fits.message_box fits.font in
      let padded : overlay body (replicate (cc_buffer * 2) 0)
          ≡ body ++ replicate (cc_buffer * 2 - n * 2) 0 =
        ap (λ r. body ++ r)
          (rw (length-bytes_of_units path) (drop-replicate (n * 2) (cc_buffer * 2) 0)) in
      let run =
        read_log_run cc_buffer n locals out s d0 d1 d2 d3 d5 log_sig (dword_bytes n) body _ r0 r1
          (overlay_full log_sig locals.mark fits.mark) r2
          (ap of_bytes (
              overlay_full (dword_bytes n) locals.length_bytes
                (fits.length_bytes ∙ sym (length-dword_bytes n)))
            ∙ of_bytes-dword_bytes n (omega arith))
          lp lc r3 r5 in
      (
        (close io d5).sys,
        run
            ∙ ap
                (λ e. (
                  true,
                  record { exe_path = e; window = w; message_box = m; font = f },
                  (close io d5).sys,
                ))
                padded,
        contents-close io log_name contents fs d5 ∙ o5.holds ∙ sym h,
      )

  -- Where nothing stops the writes, `ReadLogFile` after `WriteLogFile` succeeds for a path
  -- that is not empty and no longer than MAX_PATH and the buffer, and gives the path, padded
  -- with zeros, and the three flags that were written. The locals and the outputs have their
  -- declared sizes, and the file system is as IsFileSystem says.
  pub read_log_file-write_log_file :
      (w : IsWritable io fs.is_open) (cc_buffer : ℕ) (locals : Locals) (out : Outputs)
      (path : List ℕ) (window message font : Bool) (s : io.Sys)
      → Fits locals out
      → 0 < length path
      → length path ≤ max_path
      → length path ≤ cc_buffer
      → (s1 : io.Sys) × (s2 : io.Sys) × (write_log_file io path window message font s ≡ (true, s1))
        × (read_log_file io cc_buffer locals out s1
            ≡ (true, outputs_of cc_buffer path window message font, s2))
  read_log_file-write_log_file w cc_buffer locals out path window message font s fits pos lp lc =
      let (s1, wrote, held) = write_log_file-contents io contents fs w path window message font s in
      let (s2, got, kept) =
        read_log_file_lem cc_buffer locals out path window message font s1 held fits pos lp lc in
      (s1, s2, wrote, got)

  -- A file that begins with sixteen bytes other than the signature is accepted: `ReadLogFile`
  -- returns TRUE and leaves every output as it was.
  pub read_log_file-wrong_signature :
      (cc_buffer : ℕ) (locals : Locals) (out : Outputs) (sig rest : List ℕ) (s : io.Sys)
      → contents s ≡ some (sig ++ rest)
      → length sig ≡ 16
      → length locals.mark ≡ 16
      → same_bytes sig log_sig ≡ false
      → (s' : io.Sys) × (read_log_file io cc_buffer locals out s ≡ (true, out, s'))
  unfolding IsAt read_log_file read_body
  read_log_file-wrong_signature cc_buffer locals out sig rest s h e em ne =
      let (d0, r0, o0) = open_file-IsOpen io log_name contents fs s (sig ++ rest) h in
      let (d1, r1, o1) = read_part (sig ++ rest) [] sig rest 16 d0 refl o0 (sym e) (omega arith) in
      ((close io d1).sys, ground (arith, overlay_full sig locals.mark (em ∙ sym e), r0, r1))
