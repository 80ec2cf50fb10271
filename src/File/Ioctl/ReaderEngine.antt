-- ===== src/File/Ioctl/ReaderEngine.antt =====
-- LITEPCIE_IOCTL_DMA_READER: turning the engine on, asking for its counts, turning it off.
use litepcie_ptm_test.Base.{
  ℕ, Bool, true, false, ◌^◌, ◌<◌, ◌≡◌, ◌≢◌, refl, sym, ◌∙◌, [], arith, ◌==◌, ne→==, ==_refl,
}
use litepcie_ptm_test.Config.{reader_regs, csr_pcie_msi_enable_addr}
use litepcie_ptm_test.Bus.{Trace, Hw, enable_interrupt, disable_interrupt}
use litepcie_ptm_test.Bus.Mask.{bit-enable_interrupt, bit-disable_interrupt}
use litepcie_ptm_test.Dma.{DmaChan, clear_reader_counts, dma_reader_start, dma_reader_stop}
use litepcie_ptm_test.Dma.Engine.{Engine, engine, on_write}
use litepcie_ptm_test.Dma.Program.{dma_stop_quiets, IsLoaded, dma_reader_start-Starts}
use litepcie_ptm_test.File.Request.{EngineArgs, Session, Reply, give_back}
use litepcie_ptm_test.File.Ioctl.{switch_reader, ioctl_dma_reader}
use litepcie_ptm_test.File.Ioctl.Masks.{sess-give_back, MaskSet}

reader_untouched :
    (base v : ℕ) (e : Engine)
    → csr_pcie_msi_enable_addr < base
    → on_write reader_regs base csr_pcie_msi_enable_addr v e ≡ e
unfolding on_write
reader_untouched base v e h = ground arith

reader_start_chan : (d : DmaChan) (t : Trace) → (dma_reader_start d t).0 ≡ clear_reader_counts d
unfolding dma_reader_start
reader_start_chan d t = refl

reader_stop_chan : (d : DmaChan) (t : Trace) → (dma_reader_stop d t).0 ≡ clear_reader_counts d
unfolding dma_reader_stop
reader_stop_chan d t = refl

module _ (hw : Hw) where
  switch_reader-on :
      (enable : ℕ) (d : DmaChan) (t : Trace)
      → enable ≢ d.reader_enable
      → enable ≢ 0
      → switch_reader hw enable d t
        ≡ (clear_reader_counts d, enable_interrupt hw d.reader_interrupt (dma_reader_start d t).1)
  unfolding switch_reader
  switch_reader-on enable d t h k =
      rw (ne→== enable d.reader_enable h, ne→== enable 0 k, reader_start_chan d t)

  switch_reader-off :
      (enable : ℕ) (d : DmaChan) (t : Trace)
      → enable ≡ 0
      → d.reader_enable ≢ 0
      → switch_reader hw enable d t ≡ dma_reader_stop d (disable_interrupt hw d.reader_interrupt t)
  unfolding switch_reader
  switch_reader-off enable d t h k =
      let new : (enable == d.reader_enable) ≡ false = ne→== _ _ (λ e. k (sym e ∙ h)) in
      let off : (enable == 0) ≡ true = rw h (==_refl 0) in rw (new, off)

  -- LITEPCIE_IOCTL_DMA_READER with a new `enable` that is not 0, on a channel whose registers lie
  -- above the MSI registers, with an interrupt number below 32 and bus addresses of at most 64
  -- bits: the engine runs in loop mode on the full table of descriptors, the reader's interrupt is
  -- enabled after that, the reader's counts are 0 and nothing else of the channel changes.
  pub ioctl_dma_reader-starts :
      (copy_ok : Bool) (m : EngineArgs) (s : Session)
      → m.enable ≢ s.dma.reader_enable
      → m.enable ≢ 0
      → csr_pcie_msi_enable_addr < s.dma.base
      → s.dma.reader_interrupt < 32
      → ((j : ℕ) → s.dma.reader_handle j < 2 ^ 64)
      → let s' = (ioctl_dma_reader hw copy_ok m s).sess in
        IsLoaded s.dma.reader_handle 1 (engine reader_regs s.dma.base s'.trace)
        × MaskSet s.dma.reader_interrupt 1 s'.trace
        × (s'.dma ≡ record (clear_reader_counts (s.dma)) { reader_enable = m.enable })
        × (s'.priv ≡ s.priv)
  unfolding ioctl_dma_reader engine
  ioctl_dma_reader-starts copy_ok m s new on low few fits =
      let (w, e, set) =
        bit-enable_interrupt hw (dma_reader_start s.dma s.trace).1 s.dma.reader_interrupt
          s.dma.reader_interrupt few in
      let st = dma_reader_start-Starts s.dma s.trace fits in
      rw (sess-give_back, switch_reader-on m.enable s.dma s.trace new on, e)
        (
          rw (reader_untouched s.dma.base w _ low) st.0.running,
          record { mask = w; before = _; newest = refl; sets = set ∙ rw ==_refl },
          refl,
          refl,
        )

  -- LITEPCIE_IOCTL_DMA_READER with the `enable` that is set already touches neither the registers
  -- nor the session, and answers with the reader's counts.
  pub ioctl_dma_reader-asks :
      (copy_ok : Bool) (m : EngineArgs) (s : Session)
      → m.enable ≡ s.dma.reader_enable
      → ioctl_dma_reader hw copy_ok m s
        ≡ give_back copy_ok
            (Reply.engine
              (record m { hw_count = s.dma.reader_hw_count; sw_count = s.dma.reader_sw_count }))
            s
  unfolding ioctl_dma_reader switch_reader
  ioctl_dma_reader-asks copy_ok m s h =
      let same : (m.enable == s.dma.reader_enable) ≡ true = rw h (==_refl _) in rw (same, h)

  -- LITEPCIE_IOCTL_DMA_READER with `enable` 0 on a channel whose reader is on, with an interrupt
  -- number below 32: the reader's interrupt is disabled first; then the engine is off, out of loop
  -- mode and its table empty; the reader's counts and `reader_enable` are 0 and nothing else of the
  -- channel changes.
  pub ioctl_dma_reader-stops :
      (copy_ok : Bool) (m : EngineArgs) (s : Session)
      → m.enable ≡ 0
      → s.dma.reader_enable ≢ 0
      → s.dma.reader_interrupt < 32
      → let s' = (ioctl_dma_reader hw copy_ok m s).sess in
        let e = engine reader_regs s.dma.base s'.trace in
        (masked : Trace) × MaskSet s.dma.reader_interrupt 0 masked
        × (s'.trace ≡ (dma_reader_stop s.dma masked).1)
        × (e.enabled ≡ 0)
        × (e.looping ≡ 0)
        × (e.table ≡ [])
        × (s'.dma ≡ record (clear_reader_counts (s.dma)) { reader_enable = 0 })
        × (s'.priv ≡ s.priv)
  unfolding ioctl_dma_reader
  ioctl_dma_reader-stops copy_ok m s off was few =
      let (w, e, clear) =
        bit-disable_interrupt hw s.trace s.dma.reader_interrupt s.dma.reader_interrupt few few in
      let q = dma_stop_quiets s.dma (disable_interrupt hw s.dma.reader_interrupt s.trace) in
      rw (sess-give_back, switch_reader-off m.enable s.dma s.trace off was)
        (
          disable_interrupt hw s.dma.reader_interrupt s.trace,
          record { mask = w; before = _; newest = e; sets = clear ∙ rw ==_refl },
          refl,
          q.3,
          q.4,
          q.5,
          rw (reader_stop_chan, off),
          refl,
        )
