-- ===== src/File/Ioctl/WriterEngine.antt =====
-- LITEPCIE_IOCTL_DMA_WRITER: turning the engine on, asking for its counts, turning it off.
use litepcie_ptm_test.Base.{
  ℕ, Bool, true, false, ◌^◌, ◌<◌, ◌≡◌, ◌≢◌, refl, sym, ◌∙◌, [], arith, ◌==◌, ne→==, ==_refl,
}
use litepcie_ptm_test.Config.{writer_regs, csr_pcie_msi_enable_addr}
use litepcie_ptm_test.Bus.{Trace, Hw, enable_interrupt, disable_interrupt}
use litepcie_ptm_test.Bus.Mask.{bit-enable_interrupt, bit-disable_interrupt}
use litepcie_ptm_test.Dma.{DmaChan, clear_writer_counts, dma_writer_start, dma_writer_stop}
use litepcie_ptm_test.Dma.Engine.{Engine, engine, on_write}
use litepcie_ptm_test.Dma.Program.{dma_stop_quiets, IsLoaded, dma_writer_start-Starts}
use litepcie_ptm_test.File.Request.{EngineArgs, Session, Reply, give_back}
use litepcie_ptm_test.File.Ioctl.{switch_writer, ioctl_dma_writer}
use litepcie_ptm_test.File.Ioctl.Masks.{sess-give_back, MaskSet}

writer_untouched :
    (base v : ℕ) (e : Engine)
    → csr_pcie_msi_enable_addr < base
    → on_write writer_regs base csr_pcie_msi_enable_addr v e ≡ e
unfolding on_write
writer_untouched base v e h = ground arith

writer_start_chan : (d : DmaChan) (t : Trace) → (dma_writer_start d t).0 ≡ clear_writer_counts d
unfolding dma_writer_start
writer_start_chan d t = refl

writer_stop_chan : (d : DmaChan) (t : Trace) → (dma_writer_stop d t).0 ≡ clear_writer_counts d
unfolding dma_writer_stop
writer_stop_chan d t = refl

module _ (hw : Hw) where
  switch_writer-on :
      (enable : ℕ) (d : DmaChan) (t : Trace)
      → enable ≢ d.writer_enable
      → enable ≢ 0
      → switch_writer hw enable d t
        ≡ (clear_writer_counts d, enable_interrupt hw d.writer_interrupt (dma_writer_start d t).1)
  unfolding switch_writer
  switch_writer-on enable d t h k =
      rw (ne→== enable d.writer_enable h, ne→== enable 0 k, writer_start_chan d t)

  switch_writer-off :
      (enable : ℕ) (d : DmaChan) (t : Trace)
      → enable ≡ 0
      → d.writer_enable ≢ 0
      → switch_writer hw enable d t ≡ dma_writer_stop d (disable_interrupt hw d.writer_interrupt t)
  unfolding switch_writer
  switch_writer-off enable d t h k =
      let new : (enable == d.writer_enable) ≡ false = ne→== _ _ (λ e. k (sym e ∙ h)) in
      let off : (enable == 0) ≡ true = rw h (==_refl 0) in rw (new, off)

  -- LITEPCIE_IOCTL_DMA_WRITER with a new `enable` that is not 0, on a channel whose registers lie
  -- above the MSI registers, with an interrupt number below 32 and bus addresses of at most 64
  -- bits: the engine runs in loop mode on the full table of descriptors, the writer's interrupt is
  -- enabled after that, the writer's counts are 0 and nothing else of the channel changes.
  pub ioctl_dma_writer-starts :
      (copy_ok : Bool) (m : EngineArgs) (s : Session)
      → m.enable ≢ s.dma.writer_enable
      → m.enable ≢ 0
      → csr_pcie_msi_enable_addr < s.dma.base
      → s.dma.writer_interrupt < 32
      → ((j : ℕ) → s.dma.writer_handle j < 2 ^ 64)
      → let s' = (ioctl_dma_writer hw copy_ok m s).sess in
        IsLoaded s.dma.writer_handle 1 (engine writer_regs s.dma.base s'.trace)
        × MaskSet s.dma.writer_interrupt 1 s'.trace
        × (s'.dma ≡ record (clear_writer_counts (s.dma)) { writer_enable = m.enable })
        × (s'.priv ≡ s.priv)
  unfolding ioctl_dma_writer engine
  ioctl_dma_writer-starts copy_ok m s new on low few fits =
      let (w, e, set) =
        bit-enable_interrupt hw (dma_writer_start s.dma s.trace).1 s.dma.writer_interrupt
          s.dma.writer_interrupt few in
      let st = dma_writer_start-Starts s.dma s.trace fits in
      rw (sess-give_back, switch_writer-on m.enable s.dma s.trace new on, e)
        (
          rw (writer_untouched s.dma.base w _ low) st.0.running,
          record { mask = w; before = _; newest = refl; sets = set ∙ rw ==_refl },
          refl,
          refl,
        )

  -- LITEPCIE_IOCTL_DMA_WRITER with the `enable` that is set already touches neither the registers
  -- nor the session, and answers with the writer's counts.
  pub ioctl_dma_writer-asks :
      (copy_ok : Bool) (m : EngineArgs) (s : Session)
      → m.enable ≡ s.dma.writer_enable
      → ioctl_dma_writer hw copy_ok m s
        ≡ give_back copy_ok
            (Reply.engine
              (record m { hw_count = s.dma.writer_hw_count; sw_count = s.dma.writer_sw_count }))
            s
  unfolding ioctl_dma_writer switch_writer
  ioctl_dma_writer-asks copy_ok m s h =
      let same : (m.enable == s.dma.writer_enable) ≡ true = rw h (==_refl _) in rw (same, h)

  -- LITEPCIE_IOCTL_DMA_WRITER with `enable` 0 on a channel whose writer is on, with an interrupt
  -- number below 32: the writer's interrupt is disabled first; then the engine is off, out of loop
  -- mode and its table empty; the writer's counts and `writer_enable` are 0 and nothing else of the
  -- channel changes.
  pub ioctl_dma_writer-stops :
      (copy_ok : Bool) (m : EngineArgs) (s : Session)
      → m.enable ≡ 0
      → s.dma.writer_enable ≢ 0
      → s.dma.writer_interrupt < 32
      → let s' = (ioctl_dma_writer hw copy_ok m s).sess in
        let e = engine writer_regs s.dma.base s'.trace in
        (masked : Trace) × MaskSet s.dma.writer_interrupt 0 masked
        × (s'.trace ≡ (dma_writer_stop s.dma masked).1)
        × (e.enabled ≡ 0)
        × (e.looping ≡ 0)
        × (e.table ≡ [])
        × (s'.dma ≡ record (clear_writer_counts (s.dma)) { writer_enable = 0 })
        × (s'.priv ≡ s.priv)
  unfolding ioctl_dma_writer
  ioctl_dma_writer-stops copy_ok m s off was few =
      let (w, e, clear) =
        bit-disable_interrupt hw s.trace s.dma.writer_interrupt s.dma.writer_interrupt few few in
      let q = dma_stop_quiets s.dma (disable_interrupt hw s.dma.writer_interrupt s.trace) in
      rw (sess-give_back, switch_writer-off m.enable s.dma s.trace off was)
        (
          disable_interrupt hw s.dma.writer_interrupt s.trace,
          record { mask = w; before = _; newest = e; sets = clear ∙ rw ==_refl },
          refl,
          q.0,
          q.1,
          q.2,
          rw (writer_stop_chan, off),
          refl,
        )
