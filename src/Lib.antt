-- ===== src/Lib.antt =====
-- Verification of AutumnOS Mobile, v0.1-alpha.
--
-- AutumnOS is a user space for phones on the Linux kernel. An init program starts services
-- (v0.1-alpha/src), which load drivers' access layers (v0.1-alpha/src/HAL) and the libraries of
-- v0.1-alpha/API; applications find the functions of these through a symbol table
-- (v0.1-alpha/include/SymbolTable/table.h) whose address a kernel module keeps
-- (v0.1-alpha/kernel/module/tabloader.c). This development is about the parts that carry logic of
-- their own:
--
-- - Tunnel: v0.1-alpha/API/libatmchtn.c and include/libatmchtn.h, the ring of messages in shared
--   memory that the virtual machine and its clients talk through. `ChatTunnel` is the struct,
--   `send_msg` and `receive_from_friend` are AutumnAPI_Tunnel_Send_Msg and
--   AutumnAPI_Tunnel_ReceiveFromFriend, `create_mapping` is the memory that AutumnAPI_Tunnel_Create
--   returns. Tunnel/Queue has the queue that the ring stands for, Tunnel/Refine the refinement,
--   Tunnel/Text the bytes of a slot. Tunnel/Spsc takes both functions apart into their loads, stores
--   and slot accesses, as steps of one sender and one receiver in any order; Tunnel/Spsc/Inv has the
--   invariant of these steps, Tunnel/Spsc/Order that each step keeps it.
-- - Arena: v0.1-alpha/src/pthread/avm.c. `alloc` is AutumnVM_Alloc on `MemoryAr`; Arena/Blocks is
--   about its blocks, Arena/Message about the copy of a message's payload out of the tunnel's slot.
-- - Nls: v0.1-alpha/API/libatmnls.c. `unicode_tf8` is AutumnAPI_UnicodeTF8, `code_points` the loop of
--   AutumnAPI_DrawString in API/libfbdev.c around it. Nls/Decode is about well-formed text, Nls/Stuck
--   about text that is cut off.
-- - Surf: v0.1-alpha/API/libatmasurf.c, the layers of the window manager. Surf/Types has the records,
--   Surf/Draw the drawing (`title_gradient`, `draw_layer`, `compose`), Surf the table of layers
--   (`spawn_layer`, `destroy_layer`, `get_composite_buffer`, `set_display_size`, `get_layer_count`).
--   Surf/Draw/Words, Rows, Pixel, Gradient and Compose go from a run of words up to the composed
--   screen; Surf/Slots, Inv and Keeps have the invariant of the table, Surf/Calls what calls return,
--   Surf/Destroy the end of a context (`destroy` is AutixSurf_Destroy).
-- - Fb: v0.1-alpha/API/libfbdev.c, drawing into the back buffer: `draw_pix`, `draw_line`, `draw_rect`,
--   `draw_advanced_rect`, `draw_window_body`, `clear_fb`. Fb/Pixel, Rect, Corners and Line say what
--   each leaves at one pixel; Fb/Refresh is AutumnAPI_FbRefresh, `fb_refresh`; Fb/Blit has the pictures
--   (`draw_img`, `draw_gif_ani`), Fb/Text the glyphs of a text (`draw_glyphs`, `draw_string`), Fb/Box
--   buttons and text fields (`draw_button`, `draw_textbox`).
-- - Palette: v0.1-alpha/API/libpalette.c, shading and blending of colours: `get_gradient_color`,
--   `al_blend`. Widget: v0.1-alpha/API/widget.c, `button_set`, `chk_touch_ev` and `create_button`.
--   Widget/Press is about touches alone, Widget/Redraw about settings and drawings between them.
-- - Player: v0.1-alpha/API/libatmsndec.c, one function per function of the file on its static `ctx`.
--   Player/Inv has the invariant, Player/Progress the way to the end of a file.
-- - Tabl: v0.1-alpha/kernel/module/tabloader.c. `dioctl` is the ioctl of the device; Tabl/Owner
--   describes its state by the history of calls.
-- - Sudo: v0.1-alpha/src/autumn-sudo.c, one function per function of the file, `getminput`, `verify`,
--   `main` and, for setpswd, `create_password` with `save_password`. Sudo/Line is about the line that is
--   typed, Sudo/Root is about who becomes root, Sudo/Create about a first password.
-- - Driver: the starts and ends of the kernel modules v0.1-alpha/kernel/module/g2dwrap.c, s800modem.c and
--   tabloader.c (`gdinit`, `gdexit`, `mdinit`, `mdexit`, `devinit`, `devexit`) as the calls that they
--   make; Driver/Blit has the ioctl of g2dwrap.c.
-- - Modem: v0.1-alpha/kernel/module/s800modem.c: `mdscan`, `mdwrite`, `mdread`, `mdioctl`. Modem/Scan is
--   about one scan, Modem/History about the state after a history of ioctls, Modem/Found about what a program
--   sends and reads then.
-- - Video: v0.1-alpha/API/libatmvidec.c, one function per function of the file on its static `vctx`.
--   Video/Load has the outcomes of a load, Video/Inv the invariant, Video/Owner the file and the memory
--   that a video holds, Video/Progress the way to its end.
-- - Files: v0.1-alpha/API/libatmio.c, copying (`f_cp`) and moving (`f_mv`).
-- - Loader: v0.1-alpha/src/loader.c and v0.1-alpha/src/tabldioctl.c. `load_hal_directory` and
--   `load_api_directory` walk a tree with the common `load_entries`; `ldinit` registers the table with
--   the device of Tabl, and `save_table` and `get_table` ask that device. Loader/Order flattens the tree,
--   Loader/Order/Close is about a start and the `cleanup` after it, Loader/Register about the table.
-- - Touch: v0.1-alpha/src/pthread/inputd.c, which turns the events of the touch screen into messages
--   (`track`, `read_event`, `inputd`), and the loop of v0.1-alpha/src/session.c that reads them
--   (`scan_touch`, `read_mouse`, `session` in Touch/Arrive). Touch/Number is about printed numbers,
--   Touch/Arrive about the way of a touch through the tunnel.
-- - Common: what the others share: Boolean tests, lists over the native numbers, integers, machine
--   words, counted loops, and what loops that write into a buffer leave at one place of it (Paint,
--   Once).
-- - Power: v0.1-alpha/src/HAL/Service/power.c, whose `main` is `serve`, a `serve_round` for each round
--   of its loop over two tunnels, and v0.1-alpha/src/HAL/SysFS_Node/bat.c, `getbatcpc`. Power/Command is
--   about what a command asks for, Power/Serve about requests and answers in order, Power/Capacity
--   about the client that asks for the capacity.
-- - Window: v0.1-alpha/API/libatmui.c. `anim_fade_in` and `anim_fade_out` are the animations; Window has
--   the body, the panel and the buttons (`draw_frame`), Window/Text the texts and the whole of
--   AutumnAPI_DrawWindow (`draw_window`), Window/Frame what the frame leaves at one pixel, Window/Fade
--   a window that is drawn again and again.
-- - Display: v0.1-alpha/src/HAL/drm.c (`drm_init` is DRMinit), the end and the searches of
--   v0.1-alpha/src/HAL/fb_dev.c (`hal_fbexit`, `hal_drmres`, `get_prop_id`, `hal_fbreset`) and
--   v0.1-alpha/src/HAL/hdmi.c (`hal_hdmiact`). Display/Setup is about what a setup holds, Display/Hdmi
--   about HDMI.
-- - Signals: v0.1-alpha/src/sigf.c, `get_sig_name` and the handler `atmsig_handle`. Signals/Name is about
--   the text in the buffer.
-- - Debugger: v0.1-alpha/src/autumn-atxdb.c. `u_gad_set` is the list of the calls that set the gadget up,
--   `main` goes from the opening of the end points to the end, `serve_events` is its loop. Debugger/Relay
--   is about what the loop passes on, Debugger/Holding and Debugger/Held about descriptors and the ways
--   to end.
-- - Phone: v0.1-alpha/src/HAL/modem.c, the functions that make ioctls of the driver in Modem
--   (`hal_sendsms`, `hal_modemcall`, `hal_modemcheckpin` and the others). Phone/Send is about what the
--   modem receives, Phone/Pin about what is read of it; Modem/Command is about the text of one command.
-- - Probe: the searches for devices of v0.1-alpha/src/init.c (`chkdrm`, `chk_ethint`, `chk_sndev`), with
--   which its `main` starts the session (`session_args`), and that of v0.1-alpha/src/HAL/input.c
--   (`hal_msdevinit`). Probe/Session and Probe/Input have a theorem for each.
--
-- Conventions. C's `int` is an integer without bounds: its overflow is undefined in C, and the theorems
-- are about executions in which it does not occur. Unsigned types wrap, which is written out
-- (`% 2 ^ w`). Memory that is drawn into is the list of its 32-bit words; a write outside the list is
-- none, and the theorems show that the indices are inside where they speak of a pixel. What the
-- operating system, the decoder or a device answers is an argument. Atomic accesses are sequentially
-- consistent, and the write of a slot, the clearing before it and the copy out of it are one step each.
-- Client programs may write anything into their layers' memory between calls; the theorems about
-- drawing hold for any contents of that memory.
--
-- Fuel: `code_points` has a round for each code point and one for the NUL, which is proved to be enough
-- for well-formed text, and no fuel is enough for text that is cut off. `draw_line` needs the two
-- distances together and one round. The loop of `write_chunk` needs a round for each byte, since a
-- write that does not fail writes at least one. All other loops are counted or go through a list of answers.
--
-- Not modelled: most bindings to the kernel's files and devices (v0.1-alpha/src/HAL, the rest of src/init.c,
-- the start of src/session.c and others, which open, read, write and ioctl), the fonts, pictures, video and audio
-- decoders that the libraries call, the copies of other projects' code (include/minimp3.h,
-- include/minimp3_ex.h, kernel/module/rsod/main.c), and floating point (AutumnAPI_DrawTriangle; the roots of
-- a window's corners are an argument).
-- AutixSurf.h, which declares the records of the layers, is not in the repository; their fields are
-- those that the functions use.
pub mod Common
pub mod Tunnel
pub mod Nls
pub mod Arena
pub mod Surf
pub mod Fb
pub mod Palette
pub mod Widget
pub mod Player
pub mod Tabl
pub mod Sudo
pub mod Driver
pub mod Modem
pub mod Video
pub mod Files
pub mod Loader
pub mod Touch
pub mod Power
pub mod Window
pub mod Display
pub mod Signals
pub mod Debugger
pub mod Phone
pub mod Probe
